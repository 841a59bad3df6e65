-- ===== src/E2ee/Stamp.antt =====
-- internal/e2ee/stamp.go: when a message was sent, and its random name. A time is its Unix
-- milliseconds; those of the years after 1970 are what `time.Now` gives.
use bencchat.Prelude.{
  ℕ, ◌+◌, ◌*◌, ◌/◌, ◌%◌, ◌^◌, ◌<◌, ◌≡◌, arith, Bool, false, Option, none, some, [], ◌∷◌, ◌++◌, ltb,
  leb, if◌then◌else◌, length, take, drop, take-append_eq, drop-append_eq, length-append,
}
use bencchat.Prelude.Bytes.{Bytes}
use bencchat.Prelude.Outcome.{Result, ok, err}

abbrev pub stamp_len : ℕ
stamp_len = 8 + 16

-- `none` is the zero time.
pub record Stamped : Type 0 where
  pub sent_at : ℕ
  pub id : Bytes
  pub text : Bytes

pub data TooShort : Type 0 where
  too_short : TooShort

unfoldable pub put_uint64 : ℕ → Bytes
put_uint64 n =
    n / 2 ^ 56 % 256
    ∷ n / 2 ^ 48 % 256
    ∷ n / 2 ^ 40 % 256
    ∷ n / 2 ^ 32 % 256
    ∷ n / 2 ^ 24 % 256
    ∷ n / 2 ^ 16 % 256
    ∷ n / 2 ^ 8 % 256
    ∷ n % 256
    ∷ []

unfoldable pub uint64 : Bytes → ℕ
uint64 (a ∷ b ∷ c ∷ d ∷ e ∷ f ∷ g ∷ h ∷ _) =
    a * 2 ^ 56 + b * 2 ^ 48 + c * 2 ^ 40 + d * 2 ^ 32 + e * 2 ^ 24 + f * 2 ^ 16 + g * 2 ^ 8 + h
uint64 _ = 0

-- `rand.Read` gives 16 bytes, or fails.
unfoldable pub new_stamp : Option Bytes → ℕ → Option Stamped
new_stamp none now = none
new_stamp (some id) now = some (record { sent_at = now; id = id; text = [] })

unfoldable pub encode_stamped : Stamped → Bytes → Bytes
encode_stamped s message = put_uint64 s.sent_at ++ (s.id ++ message)

unfoldable pub decode_stamped : Bytes → Result TooShort Stamped
decode_stamped raw =
    if ltb (length raw) stamp_len
    then err too_short
    else ok (record { sent_at = uint64 raw; id = take 16 (drop 8 raw); text = drop stamp_len raw })

abbrev pub clock_skew_allowance : ℕ
clock_skew_allowance = 15 * 60 * 1000

-- `none` is the zero time.
unfoldable pub plausible_send_time : Option ℕ → ℕ → Bool
plausible_send_time none now = false
plausible_send_time (some sent_at) now = leb sent_at (now + clock_skew_allowance)

pub uint64-put_uint64 : (n : ℕ) (rest : Bytes) → n < 2 ^ 64 → uint64 (put_uint64 n ++ rest) ≡ n
unfolding uint64 put_uint64
uint64-put_uint64 n rest h = omega arith

pub length-encode_stamped :
    (s : Stamped) (m : Bytes) → length s.id ≡ 16 → length (encode_stamped s m) ≡ 24 + length m
unfolding encode_stamped put_uint64
length-encode_stamped s m n = omega (arith, length-append s.id m)

-- Decoding gives back the time, the name and the text that were framed.
pub decode_stamped-encode_stamped :
    (s : Stamped) (message : Bytes)
    → s.sent_at < 2 ^ 64
    → length s.id ≡ 16
    → decode_stamped (encode_stamped s message) ≡ ok (record s { text = message })
unfolding decode_stamped encode_stamped put_uint64
decode_stamped-encode_stamped s message t n = ground (
  arith,
  uint64-put_uint64 s.sent_at (s.id ++ message) t,
  length-encode_stamped s message n,
  take-append_eq 16 s.id message n,
  drop-append_eq 16 s.id message n,
)
