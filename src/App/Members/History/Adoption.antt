-- ===== src/App/Members/History/Adoption.antt =====
-- app_room_e2ee.go: what an accepted invitation, a restart and a record that is applied again
-- do to one name.
use bencchat.App.Members.Sets.{
  names-of_element, names, has_name-with_names, has_name-without_names, has_name-add_all,
  add_all_rest,
}
use bencchat.Prelude.{
  Bool, true, false, ◌||◌, ◌&&◌, not, ◌≡◌, ◌⊎◌, arith, none, some, if◌then◌else◌,
}
use bencchat.Prelude.Bytes.{Bytes, bytes_eq, bytes_eq_iff}
use bencchat.State.ScreenName.{has_name, has_name-add_name}
use bencchat.E2ee.Roster.{Roster}
use bencchat.App.Members.{
  restore, Members, no_members, norm, is_empty, add, pin_owner, accept_owner_epoch, tombstone,
  with_names,
}
use bencchat.App.Members.Authority.{Room, adopt_roster, adopt_invite_state}
use bencchat.App.Members.Stored.{
  StoredMembers, merge_members, apply_members, merge_members-ratchets, apply_members-restores,
}

-- The author of a roster calls himself the owner.
abbrev pub claims : (Bytes → Bytes) → Roster → Bool
claims to_lower r = bytes_eq (norm to_lower r.author) (norm to_lower r.owner)

module _ (to_lower : Bytes → Bytes) (self : Bytes) where
  adopt_roster_name :
      (r : Roster) (m : Members) (k : Bytes)
      → let after = adopt_roster to_lower self r m in
        (has_name k after.removed ≡ (
          if claims to_lower r
          then not (names to_lower k r.members)
            && (names to_lower k r.removed || has_name k m.removed)
          else has_name k m.removed))
        × (has_name k after.invited ≡ (
            names to_lower k r.members && not (bytes_eq k self) && not (has_name k after.removed)
            || has_name k m.invited))
        × (is_empty m.owner ≡ false → after.owner ≡ m.owner)
  unfolding adopt_roster pin_owner accept_owner_epoch tombstone
  adopt_roster_name r m k =
      let pinned = pin_owner to_lower r.owner m in
      let told = tombstone to_lower r.removed r.members (accept_owner_epoch r.epoch pinned) in
      ground (
        arith,
        has_name-add_all to_lower k self r.members pinned,
        has_name-add_all to_lower k self r.members told,
        add_all_rest to_lower self r.members pinned,
        add_all_rest to_lower self r.members told,
        has_name-without_names to_lower k r.members (with_names to_lower r.removed m.removed),
        has_name-with_names to_lower k r.removed m.removed,
      )

  -- An accepted invitation without a roster brings in its sender.
  pub adopt_invite_state-none :
      (sender : Bytes) (room : Room) (k : Bytes)
      → let after = (adopt_invite_state to_lower self sender none room).members in
        (after.owner ≡ room.members.owner)
        × (has_name k after.removed ≡ has_name k room.members.removed)
        × (has_name k after.invited
            ≡ (bytes_eq (norm to_lower sender) k || has_name k room.members.invited))
  unfolding adopt_invite_state add
  adopt_invite_state-none sender room k =
      ground (arith, has_name-add_name (norm to_lower sender) k room.members.invited)

  -- With a roster that verified, so does whom it lists and no removal names. Removals change only on
  -- the word of a roster whose author calls himself the owner.
  pub adopt_invite_state-some :
      (sender : Bytes) (r : Roster) (room : Room) (k : Bytes)
      → let after = (adopt_invite_state to_lower self sender (some r) room).members in
        (is_empty room.members.owner ≡ false → after.owner ≡ room.members.owner)
        × (has_name k after.removed ≡ (
            if claims to_lower r
            then not (names to_lower k r.members)
              && (names to_lower k r.removed || has_name k room.members.removed)
            else has_name k room.members.removed))
        × (has_name k after.invited ≡ (
            names to_lower k r.members && not (bytes_eq k self) && not (has_name k after.removed)
            || (bytes_eq (norm to_lower sender) k || has_name k room.members.invited)))
  unfolding adopt_invite_state add
  adopt_invite_state-some sender r room k = ground (
    arith,
    has_name-add_name (norm to_lower sender) k room.members.invited,
    adopt_roster_name r (add to_lower sender room.members) k,
  )

  -- A restart: what the record says, and the owner that it names.
  pub restart_name :
      (m : Members) (prev : StoredMembers) (k : Bytes)
      → let after = apply_members to_lower self (merge_members to_lower m prev) no_members in
        ((has_name k after.invited && has_name k after.removed) ≡ false)
        × (norm to_lower k ≡ k
            → has_name k m.removed ≡ true
            → (has_name k after.removed ≡ true) × (has_name k after.invited ≡ false))
        × ((is_empty prev.owner ≡ true) ⊎ (prev.owner ≡ m.owner) → after.owner ≡ m.owner)
  restart_name m prev k =
      let r = merge_members to_lower m prev in
      ground (
        arith,
        merge_members-ratchets to_lower m prev k,
        apply_members-restores to_lower self r k,
        names-of_element to_lower k m.removed,
        names-of_element to_lower k r.removed,
        bytes_eq_iff prev.owner prev.owner,
      )

  -- A record over a live room: its removals come in, and those of its members whom no removal names.
  pub reload_name :
      (r : StoredMembers) (m : Members) (k : Bytes)
      → let after = apply_members to_lower self r m in
        (has_name k after.removed ≡ (names to_lower k r.removed || has_name k m.removed))
        × (has_name k after.invited ≡ (
            names to_lower k r.members && not (bytes_eq k self) && not (has_name k after.removed)
            || has_name k m.invited))
        × ((is_empty r.owner ≡ true) ⊎ (r.owner ≡ m.owner) → after.owner ≡ m.owner)
  unfolding apply_members restore
  reload_name r m k =
      let base = restore to_lower r.owner r.roster_epoch r.owner_epoch r.removed m in
      ground (
        arith,
        add_all_rest to_lower self r.members base,
        has_name-add_all to_lower k self r.members base,
        has_name-with_names to_lower k r.removed m.removed,
      )
