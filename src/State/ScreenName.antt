-- ===== src/State/ScreenName.antt =====
-- internal/state/state.go: the canonical form of a screen name.
use bencchat.Prelude.{
  inr, inl, Bool-cases, ap, arith, ◌≡◌, List, Bool, true, false, [], ◌∷◌, ◌==◌, if◌then◌else◌,
}
use bencchat.Prelude.Bytes.{bytes_eq_iff, Bytes, bytes_eq}

-- `strings.ReplaceAll(sn, " ", "")`
unfoldable pub without_spaces : Bytes → Bytes
without_spaces [] = []
without_spaces (c ∷ cs) = let rest = without_spaces cs in if c == b' ' then rest else c ∷ rest

-- `strings.ToLower` is Unicode's, and a parameter.
unfoldable pub normalize_screen_name : (Bytes → Bytes) → Bytes → Bytes
unfolding without_spaces
normalize_screen_name to_lower sn = to_lower (without_spaces sn)

-- A set of names, as Go's `map[string]bool`.
unfoldable pub has_name : Bytes → List Bytes → Bool
has_name n [] = false
has_name n (m ∷ ms) = let rest = has_name n ms in if bytes_eq m n then true else rest

unfoldable pub add_name : Bytes → List Bytes → List Bytes
unfolding has_name
add_name n set = if has_name n set then set else n ∷ set

unfoldable pub delete_name : Bytes → List Bytes → List Bytes
delete_name n [] = []
delete_name n (m ∷ ms) = let rest = delete_name n ms in if bytes_eq m n then rest else m ∷ rest

has_name_eq : (n m : Bytes) (set : List Bytes) → n ≡ m → has_name n set ≡ has_name m set
has_name_eq n m set e = ap (λ k. has_name k set) e

pub has_name-add_name :
    (n m : Bytes) (set : List Bytes)
    → has_name m (add_name n set) ≡ (if bytes_eq n m then true else has_name m set)
unfolding has_name add_name
has_name-add_name n m set = elim (Bool-cases (has_name n set)) [
  | inl there ↦ ground (arith, there, bytes_eq_iff n m, has_name_eq n m set)
  | inr new ↦ ground (arith, new)
]

pub has_name-delete_name :
    (n m : Bytes) (set : List Bytes)
    → has_name m (delete_name n set) ≡ (if bytes_eq n m then false else has_name m set)
unfolding has_name delete_name
has_name-delete_name n m [] = ground arith
has_name-delete_name n m (k ∷ ks) =
    ground
      (arith, bytes_eq_iff n m, bytes_eq_iff k n, bytes_eq_iff k m, has_name-delete_name n m ks)
