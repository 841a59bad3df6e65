-- ===== src/Text/Base64.antt =====
-- Go's `base64.StdEncoding`: padded, and carriage returns and line feeds are skipped on decoding.
use bencchat.Prelude.{
  ℕ, ◌+◌, ◌-◌, ◌*◌, ◌/◌, ◌%◌, ◌<◌, ◌≡◌, refl, ◌∙◌, arith, Bool, false, ◌&&◌, ◌||◌, Option, none,
  some, [], ◌∷◌, ltb, leb, ◌==◌, if◌then◌else◌, All,
}
use bencchat.Prelude.Bytes.{Bytes, IsByte}

infixl 5 ◌>>=◌
abbrev ◌>>=◌ : {A B : Type 0} → Option A → (A → Option B) → Option B
none >>= f = none
some a >>= f = f a

-- The alphabet A-Z a-z 0-9 + /.
symbol : ℕ → ℕ
symbol n =
    if ltb n 26
    then n + 65
    else if ltb n 52
    then n + 71
    else if ltb n 62
    then n - 4
    else if n == 62
    then 43
    else 47

value : ℕ → Option ℕ
value c =
    if leb 65 c && leb c 90
    then some (c - 65)
    else if leb 97 c && leb c 122
    then some (c - 71)
    else if leb 48 c && leb c 57
    then some (c + 4)
    else if c == 43
    then some 62
    else if c == 47
    then some 63
    else none

unfoldable pub encode : Bytes → Bytes
unfolding symbol
encode [] = []
encode (a ∷ []) = symbol (a / 4) ∷ symbol (a % 4 * 16) ∷ b'=' ∷ b'=' ∷ []
encode (a ∷ b ∷ []) =
    symbol (a / 4) ∷ symbol (a % 4 * 16 + b / 16) ∷ symbol (b % 16 * 4) ∷ b'=' ∷ []
encode (a ∷ b ∷ c ∷ rest) =
    symbol (a / 4)
    ∷ symbol (a % 4 * 16 + b / 16)
    ∷ symbol (b % 16 * 4 + c / 64)
    ∷ symbol (c % 64)
    ∷ encode rest

is_line_break : ℕ → Bool
is_line_break c = c == 10 || c == 13

strip : Bytes → Bytes
strip [] = []
strip (c ∷ cs) = if is_line_break c then strip cs else c ∷ strip cs

-- The last four symbols, where the fourth is the padding sign.
last_quad : ℕ → ℕ → ℕ → Bytes → Option Bytes
last_quad w x y (c ∷ rest) = none
last_quad w x y [] = do
  p ← value w
  q ← value x
  if y == b'='
      then some ((p * 4 + q / 16) ∷ [])
      else (value y >>= λ r. some ((p * 4 + q / 16) ∷ (q % 16 * 16 + r / 4) ∷ []))

quads : Bytes → Option Bytes
quads [] = some []
quads (w ∷ x ∷ y ∷ z ∷ rest) = if z == b'=' then last_quad w x y rest else (do
  p ← value w
  q ← value x
  r ← value y
  s ← value z
  more ← quads rest
  some ((p * 4 + q / 16) ∷ (q % 16 * 16 + r / 4) ∷ (r % 4 * 64 + s) ∷ more))
quads _ = none

unfoldable pub decode : Bytes → Option Bytes
unfolding value is_line_break strip last_quad quads
decode text = quads (strip text)

value-symbol : (n : ℕ) → n < 64 → value (symbol n) ≡ some n
unfolding value symbol
value-symbol n h = ground arith

symbol_plain : (n : ℕ) → n < 64 → (is_line_break (symbol n) ≡ false) × ((symbol n == b'=') ≡ false)
unfolding symbol is_line_break
symbol_plain n h = ground arith

strip-cons : (n : ℕ) (cs : Bytes) → n < 64 → strip (symbol n ∷ cs) ≡ symbol n ∷ strip cs
unfolding strip
strip-cons n cs h = rw ((symbol_plain n h).0)

strip-encode : (bs : Bytes) → All IsByte bs → strip (encode bs) ≡ encode bs
unfolding encode
strip-encode [] h = unfold strip in refl
strip-encode (a ∷ []) h =
    rw (strip-cons (a / 4) _ (omega arith), strip-cons (a % 4 * 16) _ (omega arith))
      (unfold strip is_line_break in refl)
strip-encode (a ∷ b ∷ []) h =
    rw
      (
        strip-cons (a / 4) _ (omega arith),
        strip-cons (a % 4 * 16 + b / 16) _ (omega arith),
        strip-cons (b % 16 * 4) _ (omega arith),
      )
      (unfold strip is_line_break in refl)
strip-encode (a ∷ b ∷ c ∷ rest) h = rw (
  strip-cons (a / 4) _ (omega arith),
  strip-cons (a % 4 * 16 + b / 16) _ (omega arith),
  strip-cons (b % 16 * 4 + c / 64) _ (omega arith),
  strip-cons (c % 64) _ (omega arith),
  strip-encode rest h.1.1.1,
)

quads-cons :
    (p q r s : ℕ) (rest more : Bytes)
    → p < 64
    → q < 64
    → r < 64
    → s < 64
    → quads rest ≡ some more
    → quads (symbol p ∷ symbol q ∷ symbol r ∷ symbol s ∷ rest)
      ≡ some ((p * 4 + q / 16) ∷ (q % 16 * 16 + r / 4) ∷ (r % 4 * 64 + s) ∷ more)
unfolding quads
quads-cons p q r s rest more hp hq hr hs e = rw (
  (symbol_plain s hs).1,
  value-symbol p hp,
  value-symbol q hq,
  value-symbol r hr,
  value-symbol s hs,
  e,
)

quads-encode : (bs : Bytes) → All IsByte bs → quads (encode bs) ≡ some bs
unfolding encode
quads-encode [] h = unfold quads in refl
quads-encode (a ∷ []) h =
    unfold quads last_quad in
    rw (value-symbol (a / 4) (omega arith), value-symbol (a % 4 * 16) (omega arith)) (ground arith)
quads-encode (a ∷ b ∷ []) h =
    unfold quads last_quad in
    rw
      (
        (symbol_plain (b % 16 * 4) (omega arith)).1,
        value-symbol (a / 4) (omega arith),
        value-symbol (a % 4 * 16 + b / 16) (omega arith),
        value-symbol (b % 16 * 4) (omega arith),
      )
      (ground arith)
quads-encode (a ∷ b ∷ c ∷ rest) h =
    quads-cons (a / 4) (a % 4 * 16 + b / 16) (b % 16 * 4 + c / 64) (c % 64) (encode rest) rest
      (omega arith) (omega arith) (omega arith) (omega arith) (quads-encode rest h.1.1.1)
    ∙ ground arith

-- Decoding gives back every byte string that was encoded.
pub decode-encode : (bs : Bytes) → All IsByte bs → decode (encode bs) ≡ some bs
unfolding decode
decode-encode bs h = rw (strip-encode bs h) (quads-encode bs h)
