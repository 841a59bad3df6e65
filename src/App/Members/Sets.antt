-- ===== src/App/Members/Sets.antt =====
-- app_room_e2ee.go, roomMembers: what its loops over names leave in a set.
use bencchat.Prelude.{true, Bool, false, ◌||◌, ◌&&◌, not, List, [], ◌∷◌, ◌≡◌, refl, arith}
use bencchat.Prelude.Bytes.{Bytes, bytes_eq, bytes_eq_iff}
use bencchat.State.ScreenName.{
  has_name, add_name, delete_name, has_name-add_name, has_name-delete_name,
}
use bencchat.Text.Order.{sort_strings, insert_sorted}
use bencchat.App.Members.{
  Members, norm, add, was_removed, add_all, others, with_names, without_names,
}

module _ (to_lower : Bytes → Bytes) where
  -- A name occurs, normalized, in a list.
  unfoldable pub names : Bytes → List Bytes → Bool
  names k [] = false
  names k (n ∷ ns) = let rest = names k ns in bytes_eq (norm to_lower n) k || rest

  pub has_name-with_names :
      (k : Bytes) (ns set : List Bytes)
      → has_name k (with_names to_lower ns set) ≡ (names k ns || has_name k set)
  unfolding with_names names
  has_name-with_names k [] set = refl
  has_name-with_names k (n ∷ ns) set = ground (
    arith,
    has_name-with_names k ns (add_name (norm to_lower n) set),
    has_name-add_name (norm to_lower n) k set,
  )

  pub has_name-without_names :
      (k : Bytes) (ns set : List Bytes)
      → has_name k (without_names to_lower ns set) ≡ (not (names k ns) && has_name k set)
  unfolding without_names names
  has_name-without_names k [] set = ground arith
  has_name-without_names k (n ∷ ns) set = ground (
    arith,
    has_name-without_names k ns (delete_name (norm to_lower n) set),
    has_name-delete_name (norm to_lower n) k set,
  )

  pub has_name-others :
      (k self : Bytes) (ns set : List Bytes)
      → has_name k (others to_lower ns self set)
        ≡ (names k ns && not (bytes_eq k self) || has_name k set)
  unfolding others names
  has_name-others k self [] set = refl
  has_name-others k self (n ∷ ns) set = ground (
    arith,
    has_name-others k self ns set,
    has_name-others k self ns (add_name (norm to_lower n) set),
    has_name-add_name (norm to_lower n) k set,
    bytes_eq_iff (norm to_lower n) k,
    bytes_eq_iff (norm to_lower n) self,
    bytes_eq_iff k self,
  )

  -- A union takes in what is named, is not ours and was not removed.
  pub has_name-add_all :
      (k self : Bytes) (ns : List Bytes) (m : Members)
      → has_name k (add_all to_lower ns self m).invited ≡ (
          names k ns && not (bytes_eq k self) && not (has_name k m.removed) || has_name k m.invited)
  unfolding add_all names add was_removed
  has_name-add_all k self [] m = refl
  has_name-add_all k self (n ∷ ns) m = ground (
    arith,
    has_name-add_all k self ns m,
    has_name-add_all k self ns (add to_lower n m),
    has_name-add_name (norm to_lower n) k m.invited,
    bytes_eq_iff (norm to_lower n) k,
    bytes_eq_iff (norm to_lower n) self,
    bytes_eq_iff k self,
  )

  -- What a union leaves alone.
  pub add_all_rest :
      (self : Bytes) (ns : List Bytes) (m : Members)
      → ((add_all to_lower ns self m).removed ≡ m.removed)
        × ((add_all to_lower ns self m).owner ≡ m.owner)
        × ((add_all to_lower ns self m).epoch ≡ m.epoch)
        × ((add_all to_lower ns self m).owner_epoch ≡ m.owner_epoch)
  unfolding add_all add was_removed
  add_all_rest self [] m = (refl, refl, refl, refl)
  add_all_rest self (n ∷ ns) m =
      ground (arith, add_all_rest self ns m, add_all_rest self ns (add to_lower n m))

module _ (to_lower : Bytes → Bytes) where
  pub names-insert_sorted :
      (k s : Bytes) (ts : List Bytes)
      → names to_lower k (insert_sorted s ts)
        ≡ (bytes_eq (norm to_lower s) k || names to_lower k ts)
  unfolding names insert_sorted
  names-insert_sorted k s [] = refl
  names-insert_sorted k s (t ∷ ts) = ground (arith, names-insert_sorted k s ts)

  pub names-sort_strings :
      (k : Bytes) (ns : List Bytes) → names to_lower k (sort_strings ns) ≡ names to_lower k ns
  unfolding names sort_strings
  names-sort_strings k [] = refl
  names-sort_strings k (n ∷ ns) =
      ground (arith, names-sort_strings k ns, names-insert_sorted k n (sort_strings ns))

  -- A name that normalizing leaves as it is, and that is kept, is named.
  pub names-of_element :
      (k : Bytes) (ns : List Bytes)
      → norm to_lower k ≡ k
      → has_name k ns ≡ true
      → names to_lower k ns ≡ true
  unfolding names has_name
  names-of_element k [] normal here = absurd (ground (arith, here))
  names-of_element k (n ∷ ns) normal here =
      ground
        (arith, names-of_element k ns normal, bytes_eq_iff n k, bytes_eq_iff (norm to_lower n) k)
