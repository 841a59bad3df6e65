-- ===== src/App/Members/Invited.antt =====
-- app_room_e2ee.go: two ways an invitation goes wrong.
use bencchat.App.Members.Authority.{
  signed_roster, unreachable, Room, RosterRefusal, invite_newcomer, adopt_roster, invite_to_room,
}
use bencchat.Prelude.{ℕ, ◌≤◌, Bool, true, false, List, ◌≡◌, arith, Option}
use bencchat.Prelude.Bytes.{Bytes, bytes_eq, bytes_eq_iff}
use bencchat.Prelude.Outcome.{Result, err}
use bencchat.State.ScreenName.{has_name, has_name-delete_name}
use bencchat.E2ee.Roster.{Roster}
use bencchat.App.Members.{
  Members, norm, is_room_member, is_empty, was_removed, pin_owner, accept_owner_epoch, tombstone,
  with_names, add, remove,
}
use bencchat.App.Members.Sets.{names, has_name-add_all, add_all_rest, has_name-without_names}

-- An invitation that cannot be delivered leaves its recipient no member, also one who was a member
-- before it: here it is said of any room that meets the guards, for a name that was not removed.
pub invite_to_room-unreachable :
    (to_lower trim_space : Bytes → Bytes) (deliver : Result RosterRefusal Roster → Bool)
    (send : Roster → List Bytes → Option (List Bytes)) (self : Bytes) (now : ℕ) (given : Bytes)
    (room : Room)
    → ((r : Result RosterRefusal Roster) → deliver r ≡ false)
    → is_empty (trim_space given) ≡ false
    → room.encrypted ≡ true
    → room.joined ≡ true
    → is_empty room.members.owner ≡ false
    → was_removed to_lower (trim_space given) room.members ≡ false
    → let answer = invite_to_room to_lower trim_space deliver send self now given room in
      (answer.0 ≡ err unreachable)
      × (is_room_member to_lower (trim_space given) answer.1.members ≡ false)
unfolding invite_to_room invite_newcomer remove is_room_member
invite_to_room-unreachable to_lower trim_space deliver send self now given room lost named enc here
      owned kept =
    let recorded = add to_lower (trim_space given) room.members in
    let answer = signed_roster self now room.name recorded in
    ground (
      arith,
      lost answer.0,
      has_name-delete_name (norm to_lower (trim_space given)) (norm to_lower (trim_space given))
          answer.1.invited,
      bytes_eq_iff (norm to_lower (trim_space given)) (norm to_lower (trim_space given)),
    )

-- An accepted invitation with a roster whose author calls himself the owner takes effect as the
-- owner's, though another owner is pinned: the pin stays, but the epoch moves to the roster's and
-- the removals of those it names are lifted.
pub adopt_roster-foreign :
    (to_lower : Bytes → Bytes) (self : Bytes) (r : Roster) (m : Members) (k : Bytes)
    → is_empty m.owner ≡ false
    → bytes_eq (norm to_lower r.owner) m.owner ≡ false
    → bytes_eq (norm to_lower r.author) (norm to_lower r.owner) ≡ true
    → names to_lower k r.members ≡ true
    → bytes_eq k self ≡ false
    → let after = adopt_roster to_lower self r m in
      (after.owner ≡ m.owner)
      × (r.epoch ≤ after.owner_epoch)
      × (has_name k after.removed ≡ false)
      × (has_name k after.invited ≡ true)
unfolding adopt_roster pin_owner accept_owner_epoch tombstone
adopt_roster-foreign to_lower self r m k pinned foreign claims named other =
    let bare = tombstone to_lower r.removed r.members (accept_owner_epoch r.epoch m) in
    ground (
      arith,
      add_all_rest to_lower self r.members bare,
      has_name-add_all to_lower k self r.members bare,
      has_name-without_names to_lower k r.members (with_names to_lower r.removed m.removed),
    )
