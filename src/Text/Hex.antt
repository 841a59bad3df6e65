-- ===== src/Text/Hex.antt =====
-- Go's encoding/hex.
use bencchat.Prelude.{
  ℕ, ◌+◌, ◌-◌, ◌*◌, ◌/◌, ◌%◌, ◌<◌, ◌≡◌, refl, arith, true, ◌&&◌, Option, none, some, [], ◌∷◌, ltb,
  leb, if◌then◌else◌, All, length,
}
use bencchat.Prelude.Bytes.{Bytes, IsByte}
use bencchat.Text.Ascii.{is_hex}

infixl 5 ◌>>=◌
abbrev ◌>>=◌ : {A B : Type 0} → Option A → (A → Option B) → Option B
none >>= f = none
some a >>= f = f a

unfoldable pub digit : ℕ → ℕ
digit n = if ltb n 10 then n + 48 else n + 87

unfoldable pub digit_value : ℕ → Option ℕ
digit_value c =
    if leb 48 c && leb c 57
    then some (c - 48)
    else if leb 97 c && leb c 102
    then some (c - 87)
    else if leb 65 c && leb c 70
    then some (c - 55)
    else none

unfoldable pub encode : Bytes → Bytes
unfolding digit
encode [] = []
encode (b ∷ bs) = digit (b / 16) ∷ digit (b % 16) ∷ encode bs

unfoldable pub decode : Bytes → Option Bytes
unfolding digit_value
decode [] = some []
decode (c ∷ []) = none
decode (c ∷ d ∷ rest) = do
  hi ← digit_value c
  lo ← digit_value d
  more ← decode rest
  some ((hi * 16 + lo) ∷ more)

pub digit_value-digit : (n : ℕ) → n < 16 → digit_value (digit n) ≡ some n
unfolding digit digit_value
digit_value-digit n h = ground arith

pub decode-encode : (bs : Bytes) → All IsByte bs → decode (encode bs) ≡ some bs
unfolding encode decode
decode-encode [] h = refl
decode-encode (b ∷ bs) h =
    rw
      (
        digit_value-digit (b / 16) (omega arith),
        digit_value-digit (b % 16) (omega arith),
        decode-encode bs h.1,
      )
      (ground arith)

pub length-encode : (bs : Bytes) → length (encode bs) ≡ 2 * length bs
unfolding encode
length-encode [] = refl
length-encode (b ∷ bs) = omega (arith, length-encode bs)

pub encode_hex : (bs : Bytes) → All IsByte bs → All (λ c. is_hex c ≡ true) (encode bs)
unfolding encode is_hex digit
encode_hex [] h = tt
encode_hex (b ∷ bs) h = (ground arith, (ground arith, encode_hex bs h.1))
