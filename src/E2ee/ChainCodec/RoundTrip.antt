-- ===== src/E2ee/ChainCodec/RoundTrip.antt =====
-- Round trips, and that the tags keep the two forms apart.
use bencchat.Prelude.{
  ℕ, ◌*◌, ◌≡◌, refl, arith, length-append, true, [], ◌∷◌, ◌++◌, length, take, drop, All, All-append,
}
use bencchat.Prelude.Bytes.{Bytes, IsByte, IsU32}
use bencchat.Prelude.Outcome.{ok, err}
use bencchat.Text.Base64
use bencchat.Text.Ascii.{has_prefix, cut_prefix, trim_prefix, is_hex, cut_at-append, cut_at-hex}
use bencchat.E2ee.Ratchet.{Chain, ChainView, view}
use bencchat.E2ee.ChainCodec.{
  chain_id_len, sending_chain, chain_view, put_uint32, uint32, encode_chain_body, encode_chain_view,
  encode_chain, all_hex, from_raw, decode_chain_body, decode_chain_view, decode_chain,
}

-- What every chain made by NewChain has: a name of 16 hex digits, 32 bytes of state, a uint32.
pub record IsWellFormed (v : ChainView) : Type 0 where
  pub id_length : length v.id ≡ chain_id_len * 2
  pub id_digits : All (λ c. is_hex c ≡ true) v.id
  pub state_length : length v.state ≡ 32
  pub state_bytes : All IsByte v.state
  pub index_range : IsU32 v.index

pub uint32-put_uint32 :
    (n : ℕ) (rest : Bytes) → IsU32 n → uint32 (take 4 (put_uint32 n ++ rest)) ≡ n
unfolding uint32 put_uint32
uint32-put_uint32 n rest h = omega arith

all_hex-All : (id : Bytes) → All (λ c. is_hex c ≡ true) id → all_hex id ≡ true
unfolding all_hex
all_hex-All [] h = refl
all_hex-All (c ∷ cs) h = ground (arith, all_hex-All cs h.1)

length-put_uint32 : (n : ℕ) → length (put_uint32 n) ≡ 4
unfolding put_uint32
length-put_uint32 n = refl

drop-put_uint32 : (n : ℕ) (rest : Bytes) → drop 4 (put_uint32 n ++ rest) ≡ rest
unfolding put_uint32
drop-put_uint32 n rest = refl

pub put_uint32-IsByte : (n : ℕ) → All IsByte (put_uint32 n)
unfolding put_uint32
put_uint32-IsByte n = omega arith

from_raw-put :
    (v : ChainView)
    → IsWellFormed v
    → from_raw v.id (Base64.decode (Base64.encode (put_uint32 v.index ++ v.state))) ≡ ok v
unfolding from_raw
from_raw-put v w =
    rw
      (Base64.decode-encode (put_uint32 v.index ++ v.state)
        (All-append IsByte _ v.state (put_uint32-IsByte v.index) w.state_bytes))
      (ground (
        arith,
        length-append (put_uint32 v.index) v.state,
        uint32-put_uint32 v.index v.state w.index_range,
        length-put_uint32 v.index,
        drop-put_uint32 v.index v.state,
      ))

decode-encode_body :
    (v : ChainView)
    → IsWellFormed v
    → decode_chain_body (encode_chain_body v.id v.index v.state) ≡ ok v
unfolding decode_chain_body encode_chain_body
decode-encode_body v w =
    rw (cut_at-append b':' v.id _ (cut_at-hex v.id w.id_digits))
      (ground (arith, all_hex-All v.id w.id_digits, from_raw-put v w))

-- A view that was written reads back as itself.
pub decode-encode_view :
    (v : ChainView) → IsWellFormed v → decode_chain_view (encode_chain_view v) ≡ ok v
unfolding decode_chain_view encode_chain_view trim_prefix cut_prefix has_prefix
decode-encode_view v w = decode-encode_body v w

-- A sending chain that was written reads back as itself.
pub decode-encode_chain : (c : Chain) → IsWellFormed (view c) → decode_chain (encode_chain c) ≡ ok c
unfolding decode_chain encode_chain trim_prefix cut_prefix has_prefix view
decode-encode_chain c w = rw (decode-encode_body (view c) w)

-- Neither form is ever read as the other, whatever the two hold.
pub decode_crossed :
    (c : Chain) (v : ChainView)
    → (decode_chain_view (encode_chain c) ≡ err sending_chain)
      × (decode_chain (encode_chain_view v) ≡ err chain_view)
unfolding decode_chain_view decode_chain encode_chain encode_chain_view has_prefix
decode_crossed c v = (refl, refl)
