-- ===== src/Text/Ascii.antt =====
-- Go's `strings` functions that the program calls, on ASCII text: a string is its bytes.
use Prim.Native.Char.{code}
use Prim.Native.String.{String}
use bencchat.Prelude.{
  ℕ, ◌≡◌, arith, Bool, true, false, ◌&&◌, ◌||◌, Option, none, some, [], ◌∷◌, ◌++◌, refl, All, leb,
  ◌==◌, if◌then◌else◌,
}
use bencchat.Prelude.Bytes.{Bytes}

-- `strings.HasPrefix`
unfoldable pub has_prefix : Bytes → Bytes → Bool
has_prefix s [] = true
has_prefix [] (p ∷ ps) = false
has_prefix (c ∷ s) (p ∷ ps) = c == p && has_prefix s ps

-- `strings.CutPrefix`: what follows the prefix, if it is there.
unfoldable pub cut_prefix : Bytes → Bytes → Option Bytes
cut_prefix s [] = some s
cut_prefix [] (p ∷ ps) = none
cut_prefix (c ∷ s) (p ∷ ps) = if c == p then cut_prefix s ps else none

-- `strings.TrimPrefix`
unfoldable pub trim_prefix : Bytes → Bytes → Bytes
trim_prefix s p = elim (cut_prefix s p) [ none ↦ s | some rest ↦ rest ]

-- The text before and behind the first `c`: `s[:i]` and `s[i+1:]` for `i := strings.Index(s, c)`.
unfoldable pub cut_at : ℕ → Bytes → Option (Bytes × Bytes)
cut_at c [] = none
cut_at c (x ∷ xs) =
    let rest = cut_at c xs in
    if x == c
    then some ([], xs)
    else elim rest [ none ↦ none | some (front, back) ↦ some (x ∷ front, back) ]

-- What `hex.DecodeString` accepts as a digit.
unfoldable pub is_hex : ℕ → Bool
is_hex c = leb 48 c && leb c 57 || (leb 97 c && leb c 102 || leb 65 c && leb c 70)

pub cut_at-append :
    (c : ℕ) (front back : Bytes)
    → cut_at c front ≡ none
    → cut_at c (front ++ c ∷ back) ≡ some (front, back)
unfolding cut_at
cut_at-append c [] back h = ground arith
cut_at-append c (x ∷ xs) back h = ground (arith, cut_at-append c xs back)

-- No text of hex digits holds a colon.
pub cut_at-hex : (s : Bytes) → All (λ c. is_hex c ≡ true) s → cut_at b':' s ≡ none
unfolding cut_at is_hex
cut_at-hex [] h = refl
cut_at-hex (c ∷ cs) h = ground (arith, cut_at-hex cs h.1)

-- The bytes of a literal.
abbrev pub bytes : String → Bytes
bytes String.[] = []
bytes (String.◌∷◌ c s) = code c ∷ bytes s
