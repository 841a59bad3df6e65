-- ===== src/Prelude/Table.antt =====
-- A Go map whose keys are numbers, as an association list.
use Prim.Native.Nat.{ℕ}
use mathlib.Core.Path.{◌≡◌, refl}
use mathlib.Core.Option.{Option, none, some}
use mathlib.Core.List.{List, [], ◌∷◌}
use native.Mathlib.Omega.{arith}
use bencchat.Prelude.Tests.{if◌then◌else◌, ◌==◌}

module _ {ℓ} {V : Type ℓ} where
  unfoldable pub find : ℕ → List (ℕ × V) → Option V
  find k [] = none
  find k ((j, v) ∷ m) = if j == k then some v else find k m

  unfoldable pub store : ℕ → V → List (ℕ × V) → List (ℕ × V)
  store k v [] = (k, v) ∷ []
  store k v ((j, w) ∷ m) = if j == k then (j, v) ∷ m else (j, w) ∷ store k v m

  pub find-store :
      (k j : ℕ) (v : V) (m : List (ℕ × V))
      → find j (store k v m) ≡ (if k == j then some v else find j m)
  unfolding find store
  find-store k j v [] = refl
  find-store k j v ((i, w) ∷ m) = ground (arith, find-store k j v m)
