-- ===== src/Text/Uint.antt =====
-- `strconv.FormatUint(n, 16)` and `strconv.ParseUint(s, 16, 32)`.
use bencchat.Prelude.{
  ℕ, zero, suc, ◌+◌, ◌*◌, ◌/◌, ◌%◌, ◌^◌, ◌<◌, ◌≡◌, refl, ◌∙◌, arith, true, Option, none, some, [],
  ◌∷◌, ◌++◌, ltb, leb, ap, inl, inr, Bool-cases, Option-cases, length, length-append, if◌then◌else◌,
  All, All-append,
}
use native.Mathlib.Nat.{pow-suc}
use bencchat.Prelude.Bytes.{Bytes}
use bencchat.Text.Hex.{digit, digit_value, digit_value-digit}
use bencchat.Text.Ascii.{is_hex}

-- The digits of `n`, for `n` below 16 ^ (fuel + 1).
unfoldable pub format_fuel : ℕ → ℕ → Bytes
format_fuel zero n = digit (n % 16) ∷ []
format_fuel (suc fuel) n =
    let front = format_fuel fuel (n / 16) in
    if ltb n 16 then digit n ∷ [] else front ++ digit (n % 16) ∷ []

-- A uint32 has eight digits at most.
unfoldable pub format_uint : ℕ → Bytes
format_uint n = format_fuel 7 n

unfoldable pub parse_from : ℕ → Bytes → Option ℕ
parse_from acc [] = some acc
parse_from acc (c ∷ cs) = elim (digit_value c) [
  | none ↦ none
  | some d ↦ if leb (2 ^ 32) (acc * 16 + d) then none else parse_from (acc * 16 + d) cs
]

unfoldable pub parse_uint : Bytes → Option ℕ
parse_uint [] = none
parse_uint (c ∷ cs) = parse_from 0 (c ∷ cs)

parse_from-append :
    (xs : Bytes) (acc n d : ℕ)
    → parse_from acc xs ≡ some n
    → d < 16
    → n * 16 + d < 2 ^ 32
    → parse_from acc (xs ++ digit d ∷ []) ≡ some (n * 16 + d)
unfolding parse_from
parse_from-append [] acc n d e hd fits = ground (arith, digit_value-digit d hd)
parse_from-append (x ∷ xs) acc n d e hd fits = elim (Option-cases (digit_value x)) [
  | inl miss ↦ absurd (ground arith)
  | inr (v, hit) ↦ ground (arith, parse_from-append xs (acc * 16 + v) n d)
]

parse_from-format :
    (fuel n : ℕ) → n < 16 ^ suc fuel → n < 2 ^ 32 → parse_from 0 (format_fuel fuel n) ≡ some n
unfolding parse_from format_fuel
parse_from-format zero n h fits = ground (arith, digit_value-digit n)
parse_from-format (suc fuel) n h fits = elim (Bool-cases (ltb n 16)) [
  | inl small ↦ rw small (ground (arith, digit_value-digit n))
  | inr large ↦ rw large (
      parse_from-append (format_fuel fuel (n / 16)) 0 (n / 16) (n % 16)
        (parse_from-format fuel (n / 16) (omega (arith, pow-suc 16 (suc fuel))) (omega arith))
        (omega arith) (omega arith)
      ∙ ap some (omega arith))
]

format_fuel_pos : (fuel n : ℕ) → 0 < length (format_fuel fuel n)
unfolding format_fuel
format_fuel_pos zero n = omega arith
format_fuel_pos (suc fuel) n =
    ground (arith, length-append (format_fuel fuel (n / 16)) (digit (n % 16) ∷ []))

parse_uint_pos : (s : Bytes) → 0 < length s → parse_uint s ≡ parse_from 0 s
unfolding parse_uint
parse_uint_pos [] h = absurd (omega arith)
parse_uint_pos (c ∷ cs) h = refl

digit_hex : (n : ℕ) → n < 16 → is_hex (digit n) ≡ true
unfolding digit is_hex
digit_hex n h = ground arith

format_fuel_hex : (fuel n : ℕ) → All (λ c. is_hex c ≡ true) (format_fuel fuel n)
unfolding format_fuel
format_fuel_hex zero n = (digit_hex (n % 16) (omega arith), tt)
format_fuel_hex (suc fuel) n = elim (Bool-cases (ltb n 16)) [
  | inl small ↦ rw small (digit_hex n (ground arith), tt)
  | inr large ↦ rw large (
      All-append (λ c. is_hex c ≡ true) (format_fuel fuel (n / 16)) (digit (n % 16) ∷ [])
        (format_fuel_hex fuel (n / 16)) (digit_hex (n % 16) (omega arith), tt))
]

-- A uint32 that was printed is read back.
pub parse_uint-format_uint : (n : ℕ) → n < 2 ^ 32 → parse_uint (format_uint n) ≡ some n
unfolding parse_uint format_uint
parse_uint-format_uint n h =
    parse_uint_pos (format_fuel 7 n) (format_fuel_pos 7 n) ∙ parse_from-format 7 n (omega arith) h

pub format_uint_hex : (n : ℕ) → All (λ c. is_hex c ≡ true) (format_uint n)
unfolding format_uint
format_uint_hex n = format_fuel_hex 7 n
