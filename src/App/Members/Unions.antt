-- ===== src/App/Members/Unions.antt =====
-- app_room_e2ee.go: the order in which members' rosters arrive does not matter.
use bencchat.App.Members.Authority.{join_in, entitled, Room, apply_roster}
use bencchat.Prelude.{true, false, ◌||◌, ◌&&◌, not, ◌≡◌, arith}
use bencchat.Prelude.Bytes.{Bytes, bytes_eq}
use bencchat.State.ScreenName.{has_name}
use bencchat.E2ee.Roster.{Roster}
use bencchat.App.Members.{norm, is_room_member, add_all}
use bencchat.App.Members.Sets.{names, has_name-add_all, add_all_rest}

module _ (to_lower : Bytes → Bytes) (self : Bytes) where
  -- A roster of a member is a union, and leaves everyone entitled who was.
  joined :
      (r s : Roster) (room : Room)
      → entitled to_lower self r room.members ≡ true
      → entitled to_lower self s room.members ≡ true
      → bytes_eq (norm to_lower r.author) room.members.owner ≡ false
      → ((apply_roster to_lower self r room).members ≡ add_all to_lower r.members self room.members)
        × (entitled to_lower self s (add_all to_lower r.members self room.members) ≡ true)
  unfolding apply_roster entitled is_room_member join_in
  joined r s room a b other = ground (
    arith,
    add_all_rest to_lower self r.members room.members,
    has_name-add_all to_lower (norm to_lower (norm to_lower s.author)) self r.members room.members,
  )

  joined_twice :
      (r s : Roster) (room : Room) (k : Bytes)
      → entitled to_lower self r room.members ≡ true
      → entitled to_lower self s room.members ≡ true
      → bytes_eq (norm to_lower r.author) room.members.owner ≡ false
      → bytes_eq (norm to_lower s.author) room.members.owner ≡ false
      → let after = (apply_roster to_lower self s (apply_roster to_lower self r room)).members in
        (has_name k after.invited ≡ (
          (names to_lower k r.members || names to_lower k s.members)
            && not (bytes_eq k self)
            && not (has_name k room.members.removed)
          || has_name k room.members.invited))
        × (after.removed ≡ room.members.removed)
  joined_twice r s room k a b c d =
      let once = joined r s room a b c in
      let next = apply_roster to_lower self r room in
      let rest = add_all_rest to_lower self r.members room.members in
      let twice =
        joined s s next (ground (arith, once)) (ground (arith, once))
          (ground (arith, once, rest)) in
      ground (
        arith,
        once,
        twice,
        rest,
        add_all_rest to_lower self s.members next.members,
        has_name-add_all to_lower k self r.members room.members,
        has_name-add_all to_lower k self s.members next.members,
      )

  -- Two rosters of members leave the same members and the same removals in either order.
  pub apply_roster-commutes :
      (r s : Roster) (room : Room) (k : Bytes)
      → entitled to_lower self r room.members ≡ true
      → entitled to_lower self s room.members ≡ true
      → bytes_eq (norm to_lower r.author) room.members.owner ≡ false
      → bytes_eq (norm to_lower s.author) room.members.owner ≡ false
      → let one = (apply_roster to_lower self s (apply_roster to_lower self r room)).members in
        let other = (apply_roster to_lower self r (apply_roster to_lower self s room)).members in
        (has_name k one.invited ≡ has_name k other.invited)
        × (has_name k one.removed ≡ has_name k other.removed)
  apply_roster-commutes r s room k a b c d =
      ground (arith, joined_twice r s room k a b c d, joined_twice s r room k b a d c)
