-- ===== src/App/Members/Epochs.antt =====
-- app_room_e2ee.go: the epochs that order the owner's rosters.
use bencchat.App.Members.Authority.{entitled, obey, Room, apply_roster, installed}
use bencchat.Prelude.{◌∙◌, sym, ℕ, ◌^◌, ◌≤◌, ◌<◌, true, ◌≡◌, arith, ◌⊎◌}
use bencchat.Prelude.Bytes.{Bytes, bytes_eq_iff}
use bencchat.E2ee.Roster.{Roster}
use bencchat.App.Members.{
  Members, max_uint64, following, stamp, next_epoch, ahead_of_owner, accept_owner_epoch, norm,
  set_all, tombstone,
}
use bencchat.App.Members.History.{apply_roster_cases}
use bencchat.App.Members.Sets.{add_all_rest}

-- The next epoch is ahead of both counters, except at the ceiling, is at or past the clock, and fits
-- in 64 bits. It is claimed as it is given out.
pub next_epoch_ahead :
    (now : ℕ) (m : Members)
    → now < 2 ^ 64
    → m.epoch < 2 ^ 64
    → m.owner_epoch < 2 ^ 64
    → let (next, claimed) = next_epoch now m in
      (next < 2 ^ 64)
      × (claimed.epoch ≡ next)
      × (now ≤ next)
      × (((m.epoch < next) × (m.owner_epoch < next)) ⊎ (next ≡ max_uint64))
unfolding next_epoch stamp following
next_epoch_ahead now m a b c = ground arith

module _ (to_lower : Bytes → Bytes) (self : Bytes) where
  -- An inbound roster never lowers an epoch.
  pub apply_roster-epochs :
      (r : Roster) (room : Room)
      → let after = (apply_roster to_lower self r room).members in
        (room.members.owner_epoch ≤ after.owner_epoch) × (room.members.epoch ≤ after.epoch)
  unfolding installed set_all tombstone accept_owner_epoch
  apply_roster-epochs r room = ground (
    arith,
    apply_roster_cases to_lower (λ s. s) self r room,
    add_all_rest to_lower self r.members room.members,
  )

  apply_roster-settles :
      (r : Roster) (room : Room)
      → norm to_lower r.author ≡ room.members.owner
      → entitled to_lower self r room.members ≡ true
      → (r.epoch ≤ (apply_roster to_lower self r room).members.owner_epoch)
        × ((apply_roster to_lower self r room).members.owner ≡ room.members.owner)
  unfolding apply_roster obey installed set_all tombstone accept_owner_epoch ahead_of_owner
  apply_roster-settles r room author entitled =
      ground (arith, bytes_eq_iff (norm to_lower r.author) room.members.owner)

  apply_roster-stale :
      (r : Roster) (room : Room)
      → norm to_lower r.author ≡ room.members.owner
      → r.epoch ≤ room.members.owner_epoch
      → apply_roster to_lower self r room ≡ room
  unfolding apply_roster ahead_of_owner
  apply_roster-stale r room author old =
      ground (arith, bytes_eq_iff (norm to_lower r.author) room.members.owner)

  -- Once a roster of the owner was heard, no roster of the owner with that epoch or an earlier one
  -- changes the room: an earlier one is not rolled back to, and a second copy does nothing.
  pub apply_roster-replayed :
      (r old : Roster) (room : Room)
      → norm to_lower r.author ≡ room.members.owner
      → entitled to_lower self r room.members ≡ true
      → norm to_lower old.author ≡ room.members.owner
      → old.epoch ≤ r.epoch
      → apply_roster to_lower self old (apply_roster to_lower self r room)
        ≡ apply_roster to_lower self r room
  apply_roster-replayed r old room author accepted same earlier =
      let settled = apply_roster-settles r room author accepted in
      apply_roster-stale old (apply_roster to_lower self r room) (same ∙ sym settled.1)
        (omega arith)
