-- ===== src/App/Members/Apart.antt =====
-- app_room_e2ee.go: nobody is a member and removed at once, whatever happens to a room.
use bencchat.App.Members.Authority.{dropped, installed, remove_all, signed_roster}
use bencchat.Prelude.{ℕ, false, ◌||◌, ◌&&◌, not, List, [], ◌∷◌, ◌≡◌, refl, arith}
use bencchat.Prelude.Bytes.{Bytes}
use bencchat.State.ScreenName.{has_name, has_name-delete_name}
use bencchat.E2ee.Roster.{Roster}
use bencchat.App.Members.{
  Members, norm, remove, add_all, with_names, without_names, tombstone, set_all, accept_owner_epoch,
  next_epoch,
}
use bencchat.App.Members.Sets.{
  names, has_name-with_names, has_name-without_names, has_name-others, has_name-add_all,
  add_all_rest,
}

-- No name is in both sets.
unfoldable pub IsApart : Members → Type 0
IsApart m = (k : Bytes) → (has_name k m.invited && has_name k m.removed) ≡ false

module _ (to_lower : Bytes → Bytes) where
  pub add_all-IsApart :
      (self : Bytes) (ns : List Bytes) (m : Members)
      → IsApart m
      → IsApart (add_all to_lower ns self m)
  unfolding IsApart
  add_all-IsApart self ns m h k =
      rw (add_all_rest to_lower self ns m).0
        (ground (arith, h k, has_name-add_all to_lower k self ns m))

  pub installed-IsApart :
      (self : Bytes) (r : Roster) (m : Members) → IsApart (installed to_lower self r m)
  unfolding IsApart installed tombstone set_all accept_owner_epoch has_name
  installed-IsApart self r m k = ground (
    arith,
    has_name-others to_lower k self r.members [],
    has_name-without_names to_lower k r.members (with_names to_lower r.removed m.removed),
  )

  remove_all-names :
      (k : Bytes) (ds : List Bytes) (m : Members)
      → (has_name k (remove_all to_lower ds m).invited
          ≡ (not (names to_lower k ds) && has_name k m.invited))
        × ((remove_all to_lower ds m).removed ≡ m.removed)
  unfolding remove_all remove names
  remove_all-names k [] m = (ground arith, refl)
  remove_all-names k (d ∷ ds) m =
      let rest = remove_all-names k ds (remove to_lower d m) in
      (ground (arith, rest.0, has_name-delete_name (norm to_lower d) k m.invited), rest.1)

  -- Those dropped are no members, and are tombstoned, with those that were before.
  pub dropped-names :
      (k : Bytes) (ds : List Bytes) (m : Members)
      → (has_name k (dropped to_lower ds m).invited
          ≡ (not (names to_lower k ds) && has_name k m.invited))
        × (has_name k (dropped to_lower ds m).removed
            ≡ (names to_lower k ds || has_name k m.removed))
  unfolding dropped tombstone without_names
  dropped-names k ds m =
      let parts = remove_all-names k ds m in
      (
        parts.0,
        ground (
          arith,
          has_name-with_names to_lower k ds (remove_all to_lower ds m).removed,
          has_name-with_names to_lower k ds m.removed,
          parts.1,
        ),
      )

  pub dropped-IsApart :
      (ds : List Bytes) (m : Members) → IsApart m → IsApart (dropped to_lower ds m)
  unfolding IsApart
  dropped-IsApart ds m h k =
      let parts = dropped-names k ds m in ground (arith, parts.0, parts.1, h k)

-- Signing a statement changes no set.
pub signed_roster_sets :
    (self : Bytes) (now : ℕ) (name : Bytes) (m : Members)
    → ((signed_roster self now name m).1.invited ≡ m.invited)
      × ((signed_roster self now name m).1.removed ≡ m.removed)
      × ((signed_roster self now name m).1.owner ≡ m.owner)
unfolding signed_roster next_epoch accept_owner_epoch
signed_roster_sets self now name m = ground arith

remove_all_owner :
    (to_lower : Bytes → Bytes) (ds : List Bytes) (m : Members)
    → (remove_all to_lower ds m).owner ≡ m.owner
unfolding remove_all remove
remove_all_owner to_lower [] m = refl
remove_all_owner to_lower (d ∷ ds) m = remove_all_owner to_lower ds (remove to_lower d m)

pub dropped_owner :
    (to_lower : Bytes → Bytes) (ds : List Bytes) (m : Members)
    → (dropped to_lower ds m).owner ≡ m.owner
unfolding dropped tombstone
dropped_owner to_lower ds m = remove_all_owner to_lower ds m
