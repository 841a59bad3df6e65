-- ===== src/Text/Order.antt =====
-- Go's order on strings, and `sort.Strings`.
use bencchat.Prelude.{Bool, true, false, ◌||◌, ◌&&◌, List, [], ◌∷◌, ltb, ◌==◌, if◌then◌else◌}
use bencchat.Prelude.Bytes.{Bytes}

unfoldable pub before : Bytes → Bytes → Bool
before [] [] = false
before [] (y ∷ ys) = true
before (x ∷ xs) [] = false
before (x ∷ xs) (y ∷ ys) = let rest = before xs ys in ltb x y || (x == y && rest)

unfoldable pub insert_sorted : Bytes → List Bytes → List Bytes
insert_sorted s [] = s ∷ []
insert_sorted s (t ∷ ts) =
    let rest = insert_sorted s ts in if before t s then t ∷ rest else s ∷ t ∷ ts

unfoldable pub sort_strings : List Bytes → List Bytes
unfolding before insert_sorted
sort_strings [] = []
sort_strings (s ∷ ss) = insert_sorted s (sort_strings ss)
