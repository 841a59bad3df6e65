-- ===== src/Tests/Membership.antt =====
-- Room membership at concrete inputs.
use bencchat.App.Members.History.{
  happen, Event, arrives, removes, invites, adopts, restarts, reloads, history, rekeyed,
}
use bencchat.App.Members.Authority.{
  normalized, outside, rekey_room, dropped, entitled, unreachable, Room, RosterRefusal,
  adopt_roster, apply_roster, invite_to_room, stated,
}
use bencchat.Prelude.{
  Bool, ℕ, ◌≤◌, ◌<◌, ◌≡◌, ◌⊎◌, inr, ◌^◌, refl, arith, true, false, List, [], ◌∷◌, some, Option,
  ◌||◌, ◌&&◌, not,
}
use bencchat.Prelude.Bytes.{Bytes, bytes_eq, bytes_eq_iff}
use bencchat.Prelude.Outcome.{Result, err}
use bencchat.Text.Ascii.{bytes}
use bencchat.State.ScreenName.{has_name, normalize_screen_name}
use bencchat.E2ee.Roster.{Roster}
use bencchat.App.Members.{
  Members, no_members, next_epoch, max_uint64, is_room_member, is_empty, was_removed,
  ahead_of_owner,
}
use bencchat.App.Members.Sets.{names}
use bencchat.App.Members.Apart.{IsApart}
use bencchat.App.Members.History.Removal.{
  IsOut, Spares, Admits, Admitted, history-IsApart, history-IsOut,
}
use bencchat.App.Members.Epochs.{next_epoch_ahead, apply_roster-replayed}
use bencchat.App.Members.Unions.{apply_roster-commutes}
use bencchat.App.Members.Reaching.{removal, rekey_room-reaches}
use bencchat.App.Members.Invited.{invite_to_room-unreachable, adopt_roster-foreign}
use bencchat.App.Members.Stored.{StoredMembers, merge_members, merge_members-ratchets}

abbrev same_case : Bytes → Bytes
same_case s = s

abbrev ann : Bytes
ann = bytes "ann"

abbrev bob : Bytes
bob = bytes "bob"

abbrev eve : Bytes
eve = bytes "eve"

abbrev dan : Bytes
dan = bytes "dan"

abbrev members : List Bytes → Bytes → ℕ → List Bytes → Members
members invited owner owner_epoch removed = record {
  invited = invited;
  owner = owner;
  epoch = 4;
  owner_epoch = owner_epoch;
  removed = removed;
}

abbrev room : Members → Room
room m = record {
  name = bytes "den";
  encrypted = true;
  joined = true;
  members = m;
  stale = false;
  warnings = [];
  sent = [];
}

-- Ann owns the room, and has Bob and Eve in it.
abbrev at_ann : Room
at_ann = room (members (bob ∷ eve ∷ []) ann 3 [])

abbrev at_bob : Room
at_bob = room (members (ann ∷ eve ∷ []) ann 3 [])

-- Bob's room after Eve was removed.
abbrev without_eve : Room
without_eve = room (members (ann ∷ []) ann 4 (eve ∷ []))

abbrev roster : Bytes → ℕ → List Bytes → List Bytes → Roster
roster author epoch members removed = record {
  room = bytes "den";
  epoch = epoch;
  members = members;
  removed = removed;
  owner = ann;
  author = author;
  signer = [];
  signature = [];
}

abbrev all_reached : Roster → List Bytes → Option (List Bytes)
all_reached r to = some []

abbrev lost : Result RosterRefusal Roster → Bool
lost r = false

abbrev on_disk : StoredMembers
on_disk = record {
  members = bob ∷ eve ∷ [];
  owner = ann;
  roster_epoch = 9;
  owner_epoch = 8;
  removed = eve ∷ [];
}

-- Bob's record is applied to the room, and he accepts an invitation of Ann's, whose roster has Eve removed; then Eve's own copy of an old
-- roster, Ann's next one, a removal that Bob may not make, Bob inviting Eve again, and a restart.
abbrev events : List Event
events =
    reloads on_disk
    ∷ adopts ann (some (roster ann 4 (bob ∷ dan ∷ []) (eve ∷ [])))
    ∷ arrives (roster eve 9 (eve ∷ dan ∷ []) [])
    ∷ arrives (roster ann 5 (bob ∷ ann ∷ []) (eve ∷ []))
    ∷ removes all_reached 7 (ann ∷ [])
    ∷ invites lost all_reached 8 eve
    ∷ restarts on_disk
    ∷ []

without_eve-IsApart : IsApart without_eve.members
unfolding IsApart has_name
without_eve-IsApart k = ground (arith, bytes_eq_iff ann k, bytes_eq_iff eve k)

events-Admitted : Admitted same_case same_case bob events without_eve
unfolding Admitted Admits happen names has_name bytes_eq normalize_screen_name
events-Admitted = (
  (λ j here. ground (arith, here, bytes_eq_iff ann j, bytes_eq_iff eve j)),
  (
    (refl, λ c j here. ground (arith, here, bytes_eq_iff ann j, bytes_eq_iff eve j)),
    (tt, (tt, (tt, (tt, (tt, tt))))),
  ),
)

history-IsApart_example : IsApart (history same_case same_case bob events without_eve).members
history-IsApart_example =
    history-IsApart same_case same_case bob events without_eve events-Admitted without_eve-IsApart

history-IsOut_example : IsOut eve (history same_case same_case bob events without_eve).members
unfolding IsOut Spares names has_name bytes_eq normalize_screen_name is_empty
history-IsOut_example =
    history-IsOut same_case same_case bob eve events without_eve refl refl
      (
        inr refl,
        (
          (refl, λ c. refl),
          (
            (λ h. absurd (ground (arith, h))),
            ((λ h. refl), (tt, ((λ h e. ground (arith, e)), (inr refl, tt)))),
          ),
        ),
      )
      (refl, refl)

next_epoch_ahead_example :
    let (next, claimed) = next_epoch 1700000000 at_ann.members in
    (next < 2 ^ 64)
    × (claimed.epoch ≡ next)
    × (1700000000 ≤ next)
    × (((4 < next) × (3 < next)) ⊎ (next ≡ max_uint64))
next_epoch_ahead_example =
    next_epoch_ahead 1700000000 at_ann.members (omega arith) (omega arith) (omega arith)

apply_roster-replayed_example :
    apply_roster same_case bob
      (roster ann 4 (eve ∷ ann ∷ []) [])
      (apply_roster same_case bob (roster ann 5 (ann ∷ []) (eve ∷ [])) at_bob)
    ≡ apply_roster same_case bob (roster ann 5 (ann ∷ []) (eve ∷ [])) at_bob
unfolding normalize_screen_name bytes_eq
apply_roster-replayed_example =
    apply_roster-replayed same_case bob (roster ann 5 (ann ∷ []) (eve ∷ []))
      (roster ann 4 (eve ∷ ann ∷ []) []) at_bob refl (unfold entitled in refl) refl (omega arith)

apply_roster-commutes_example :
    let one =
      (apply_roster same_case ann
        (roster eve 1 (dan ∷ []) [])
        (apply_roster same_case ann (roster bob 1 (bob ∷ []) []) at_ann)).members in
    let other =
      (apply_roster same_case ann
        (roster bob 1 (bob ∷ []) [])
        (apply_roster same_case ann (roster eve 1 (dan ∷ []) []) at_ann)).members in
    (has_name dan one.invited ≡ has_name dan other.invited)
    × (has_name dan one.removed ≡ has_name dan other.removed)
unfolding normalize_screen_name bytes_eq is_room_member has_name
apply_roster-commutes_example =
    apply_roster-commutes same_case ann (roster bob 1 (bob ∷ []) []) (roster eve 1 (dan ∷ []) [])
      at_ann dan (unfold entitled in refl) (unfold entitled in refl) refl refl

rekey_room-reaches_example :
    let r = removal same_case ann 7 (bytes "den") (eve ∷ []) at_ann.members in
    let owner_side = rekeyed at_ann (rekey_room same_case all_reached ann 7 (eve ∷ []) at_ann) in
    let after = apply_roster same_case bob r at_bob in
    (owner_side.sent
      ≡ (r, outside (normalized same_case (eve ∷ [])) owner_side.members.invited) ∷ [])
    × (has_name eve after.members.removed ≡ true)
    × (has_name eve after.members.invited ≡ false)
    × (has_name eve at_bob.members.removed ≡ false → after.stale ≡ true)
    × ((j : Bytes)
        → has_name j after.members.invited
          ≡ ((has_name j owner_side.members.invited || bytes_eq ann j) && not (bytes_eq j bob)))
unfolding normalize_screen_name bytes_eq is_empty names next_epoch ahead_of_owner stated dropped
rekey_room-reaches_example =
    rekey_room-reaches same_case all_reached ann 7 (eve ∷ []) at_ann bob at_bob eve refl refl refl
      refl refl (refl, (refl, tt)) refl refl refl refl refl

invite_to_room-unreachable_example :
    let answer = invite_to_room same_case same_case lost all_reached ann 7 bob at_ann in
    (answer.0 ≡ err unreachable) × (is_room_member same_case bob answer.1.members ≡ false)
unfolding is_empty was_removed has_name normalize_screen_name bytes_eq
invite_to_room-unreachable_example =
    invite_to_room-unreachable same_case same_case lost all_reached ann 7 bob at_ann (λ r. refl)
      refl refl refl refl refl

-- A roster in which Dan calls himself the owner of Ann's room.
abbrev usurping : Roster
usurping = record (roster dan 99 (eve ∷ []) []) { owner = dan }

adopt_roster-foreign_example :
    let after = adopt_roster same_case bob usurping without_eve.members in
    (after.owner ≡ ann)
    × (99 ≤ after.owner_epoch)
    × (has_name eve after.removed ≡ false)
    × (has_name eve after.invited ≡ true)
unfolding is_empty bytes_eq normalize_screen_name names
adopt_roster-foreign_example =
    adopt_roster-foreign same_case bob usurping without_eve.members eve refl refl refl refl refl

merge_members-ratchets_example :
    let new = merge_members same_case no_members on_disk in
    (0 ≤ new.roster_epoch)
    × (9 ≤ new.roster_epoch)
    × (0 ≤ new.owner_epoch)
    × (8 ≤ new.owner_epoch)
    × (has_name eve new.removed ≡ (names same_case eve [] || names same_case eve (eve ∷ [])))
    × (is_empty ann ≡ false → new.owner ≡ ann)
    × (is_empty ann ≡ true → new.owner ≡ [])
    × (names same_case eve new.members ≡ true → names same_case eve new.removed ≡ false)
merge_members-ratchets_example = merge_members-ratchets same_case no_members on_disk eve
