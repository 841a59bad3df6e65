-- ===== src/App/Members/History.antt =====
-- app_room_e2ee.go: a room's membership over time. An event is a call that changes who is in the room,
-- who was removed from it or who owns it: every one but the move to a new room (ReformRoom).
use bencchat.App.Members.Authority.{
  normalized, dropped, signed_roster, invite_newcomer, mark_chain_stale, entitled, installed,
  invite_to_room, obey, RekeyError, join_in, rekey_room, Room, RosterRefusal, apply_roster,
  distribute_roster, adopt_invite_state,
}
pub mod Adoption
pub mod Removal
use bencchat.App.Members.{
  pin_owner, no_members, Members, norm, add, remove, was_removed, add_all, others, with_names,
  without_names, tombstone, set_all, accept_owner_epoch, next_epoch, is_empty, ahead_of_owner,
}
use bencchat.App.Members.Stored.{StoredMembers, merge_members, apply_members}
use bencchat.Prelude.{
  ℕ, Bool, true, false, ◌||◌, ◌&&◌, not, List, [], ◌∷◌, ◌++◌, if◌then◌else◌, ◌≡◌, refl, arith,
  Bool-cases, inl, inr, subst, sym, length, ltb, Option, none, some, All, ap, ◌⊎◌, ◌≢◌,
}
use bencchat.Prelude.Bytes.{Bytes, bytes_eq, bytes_eq_iff}
use bencchat.Prelude.Outcome.{Result, ok, err, Result-cases}
use bencchat.State.ScreenName.{
  has_name, add_name, delete_name, has_name-add_name, has_name-delete_name,
}
use bencchat.E2ee.Roster.{Roster}
use bencchat.App.Members.Authority
use bencchat.App.Members.Sets.{
  names, has_name-with_names, has_name-without_names, has_name-others, has_name-add_all,
  add_all_rest,
}
use bencchat.App.Members.Apart.{
  IsApart, add_all-IsApart, installed-IsApart, dropped-IsApart, dropped-names, signed_roster_sets,
}

-- Inbound rosters, our removals and our invitations, with the clock and the network's answers; an
-- invitation that we accept, from whom and with the roster that verified, if any; our own creation of
-- the room; a restart, over the record that was on disk before the last save, after which the room is
-- joined again; and a record applied over the live room, at another sign-on or with what another
-- device handed over.
pub data Event : Type 0 where
  arrives : Roster → Event
  removes : (Roster → List Bytes → Option (List Bytes)) → ℕ → List Bytes → Event
  invites :
      (Result RosterRefusal Roster → Bool)
      → (Roster → List Bytes → Option (List Bytes))
      → ℕ
      → Bytes
      → Event
  adopts : Bytes → Option Roster → Event
  creates : Event
  restarts : StoredMembers → Event
  reloads : StoredMembers → Event

-- A call that is refused leaves the room as it was.
unfoldable pub rekeyed : Room → Result RekeyError (List Bytes × Room) → Room
rekeyed room (err e) = room
rekeyed room (ok answer) = answer.1

module _ (to_lower trim_space : Bytes → Bytes) (self : Bytes) where
  unfoldable pub happen : Event → Room → Room
  unfolding rekeyed apply_roster rekey_room invite_to_room adopt_invite_state pin_owner
      merge_members apply_members
  happen (arrives r) room = apply_roster to_lower self r room
  happen (removes send now drop) room = rekeyed room (rekey_room to_lower send self now drop room)
  happen (invites deliver send now given) room =
      (invite_to_room to_lower trim_space deliver send self now given room).1
  happen (adopts sender verified) room = adopt_invite_state to_lower self sender verified room
  happen creates room = record room { members = pin_owner to_lower self room.members }
  happen (restarts prev) room = record room {
    members = apply_members to_lower self (merge_members to_lower room.members prev) no_members;
  }
  happen (reloads r) room = record room { members = apply_members to_lower self r room.members }

  unfoldable pub history : List Event → Room → Room
  unfolding happen
  history [] room = room
  history (e ∷ es) room = history es (happen e room)

-- Two rooms with the same sets and the same owner.
pub SameSets : Members → Members → Type 0
SameSets m n = (n.invited ≡ m.invited) × (n.removed ≡ m.removed) × (n.owner ≡ m.owner)

distribute_roster_sets :
    (send : Roster → List Bytes → Option (List Bytes)) (self : Bytes) (now : ℕ) (skip : List Bytes)
    (room : Room)
    → SameSets room.members (distribute_roster send self now skip room).1.members
unfolding SameSets distribute_roster
distribute_roster_sets send self now skip room =
    ground (arith, signed_roster_sets self now room.name room.members)

module _ (to_lower trim_space : Bytes → Bytes) (self : Bytes) where
  -- The sets after an inbound roster are those before, or a union, or the owner's.
  pub apply_roster_cases :
      (r : Roster) (room : Room)
      → ((apply_roster to_lower self r room).members ≡ room.members)
        ⊎ ((bytes_eq (norm to_lower r.author) room.members.owner ≡ false)
            × ((apply_roster to_lower self r room).members
                ≡ add_all to_lower r.members self room.members))
        ⊎ ((norm to_lower r.author ≡ room.members.owner)
            × (ahead_of_owner r.epoch room.members ≡ true)
            × ((apply_roster to_lower self r room).members
                ≡ installed to_lower self r room.members))
  unfolding apply_roster join_in obey
  apply_roster_cases r room = elim (Bool-cases (entitled to_lower self r room.members)) [
    | inr out ↦ inl (rw (apply_roster, out) refl)
    | inl entitled ↦ elim (Bool-cases (bytes_eq (norm to_lower r.author) room.members.owner)) [
      | inr other ↦ inr (inl (other, rw (apply_roster, entitled, other) refl))
      | inl owner ↦ elim (Bool-cases (ahead_of_owner r.epoch room.members)) [
        | inr stale ↦ inl (rw (apply_roster, entitled, owner, stale) refl)
        | inl ahead ↦ inr (
            inr (
              (bytes_eq_iff (norm to_lower r.author) room.members.owner).0 owner,
              ahead,
              rw (apply_roster, entitled, owner, ahead) refl,
            ))
      ]
    ]
  ]

  pub rekey_room_cases :
      (send : Roster → List Bytes → Option (List Bytes)) (now : ℕ) (drop : List Bytes) (room : Room)
      → (rekeyed room (rekey_room to_lower send self now drop room) ≡ room)
        ⊎ SameSets
            (dropped to_lower drop room.members)
            (rekeyed room (rekey_room to_lower send self now drop room)).members
  unfolding rekeyed rekey_room mark_chain_stale SameSets
  rekey_room_cases send now drop room =
      let marked =
        mark_chain_stale (record room { members = dropped to_lower drop room.members }) in
      ground (arith, distribute_roster_sets send self now (normalized to_lower drop) marked)

  -- What an invitation that gets past the guards does to one name.
  invite_newcomer_name :
      (deliver : Result RosterRefusal Roster → Bool)
      (send : Roster → List Bytes → Option (List Bytes)) (now : ℕ) (sn : Bytes) (lifted : Bool)
      (room : Room) (k : Bytes)
      → let after = (invite_newcomer to_lower deliver send self now sn lifted room).1.members in
        (after.owner ≡ room.members.owner)
        × (bytes_eq (norm to_lower sn) k ≡ false
            → (has_name k after.invited ≡ has_name k room.members.invited)
              × (has_name k after.removed ≡ has_name k room.members.removed))
        × (bytes_eq (norm to_lower sn) k ≡ true
            → ((has_name k after.invited ≡ true)
                × (has_name k after.removed ≡ has_name k room.members.removed))
              ⊎ ((has_name k after.invited ≡ false)
                  × (has_name k after.removed ≡ (lifted || has_name k room.members.removed))))
  unfolding invite_newcomer add remove tombstone SameSets with_names without_names
  invite_newcomer_name deliver send now sn lifted room k =
      let recorded = add to_lower sn room.members in
      let answer = signed_roster self now room.name recorded in
      ground (
        arith,
        signed_roster_sets self now room.name recorded,
        distribute_roster_sets send self now (normalized to_lower (sn ∷ []))
            (record room { members = answer.1 }),
        has_name-add_name (norm to_lower sn) k room.members.invited,
        has_name-add_name (norm to_lower sn) k answer.1.removed,
        has_name-delete_name (norm to_lower sn) k answer.1.invited,
      )

  -- What an invitation does to one name: nothing; the name comes in; or, unreached, it goes.
  pub invite_to_room_name :
      (deliver : Result RosterRefusal Roster → Bool)
      (send : Roster → List Bytes → Option (List Bytes)) (now : ℕ) (given : Bytes) (room : Room)
      (k : Bytes)
      → let after =
          (invite_to_room to_lower trim_space deliver send self now given room).1.members in
        (after.owner ≡ room.members.owner)
        × (((has_name k after.invited ≡ has_name k room.members.invited)
              × (has_name k after.removed ≡ has_name k room.members.removed))
            ⊎ ((norm to_lower (trim_space given) ≡ k)
                × (has_name k after.removed ≡ false)
                × ((has_name k room.members.removed ≡ false) ⊎ (room.members.owner ≡ self)))
            ⊎ ((norm to_lower (trim_space given) ≡ k)
                × (has_name k after.invited ≡ false)
                × (has_name k after.removed ≡ has_name k room.members.removed)))
  unfolding invite_to_room was_removed tombstone with_names without_names
  invite_to_room_name deliver send now given room k =
      let sn = trim_space given in
      ground (
        arith,
        invite_newcomer_name deliver send now sn false room k,
        invite_newcomer_name deliver send now sn true
            (record room { members = tombstone to_lower [] (sn ∷ []) room.members }) k,
        has_name-delete_name (norm to_lower sn) k room.members.removed,
        bytes_eq_iff (norm to_lower sn) k,
        bytes_eq_iff room.members.owner self,
      )
