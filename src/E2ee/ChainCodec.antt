-- ===== src/E2ee/ChainCodec.antt =====
-- internal/e2ee/ratchet.go, from EncodeChainView on: the text forms of chains and views.
pub mod RoundTrip
use bencchat.Prelude.{
  ℕ, ◌+◌, ◌*◌, ◌/◌, ◌%◌, ◌^◌, Bool, true, false, ◌&&◌, ◌||◌, not, Option, none, some, List, [], ◌∷◌,
  ◌++◌, leb, ◌==◌, if◌then◌else◌, length, take, drop,
}
use bencchat.Prelude.Bytes.{Bytes, bytes_eq}
use bencchat.Prelude.Outcome.{Result, ok, err, ◌>>=◌}
use bencchat.Text.Base64
use bencchat.Text.Ascii.{has_prefix, cut_prefix, trim_prefix, cut_at, is_hex}
use bencchat.E2ee.Ratchet.{Chain, ChainView}

abbrev pub chain_id_len : ℕ
chain_id_len = 8

-- `c1:` and `v1:`.
abbrev pub chain_tag : Bytes
chain_tag = b'c' ∷ b'1' ∷ b':' ∷ []

abbrev pub chain_view_tag : Bytes
chain_view_tag = b'v' ∷ b'1' ∷ b':' ∷ []

pub data CodecError : Type 0 where
  sending_chain chain_view malformed id_length id_digits base64 body_length : CodecError

-- `binary.BigEndian`.
unfoldable pub put_uint32 : ℕ → Bytes
put_uint32 n = n / 2 ^ 24 % 256 ∷ n / 2 ^ 16 % 256 ∷ n / 2 ^ 8 % 256 ∷ n % 256 ∷ []

unfoldable pub uint32 : Bytes → ℕ
uint32 (a ∷ b ∷ c ∷ d ∷ _) = a * 2 ^ 24 + b * 2 ^ 16 + c * 2 ^ 8 + d
uint32 _ = 0

unfoldable pub encode_chain_body : Bytes → ℕ → Bytes → Bytes
encode_chain_body id index state = id ++ b':' ∷ Base64.encode (put_uint32 index ++ state)

unfoldable pub encode_chain_view : ChainView → Bytes
encode_chain_view v = chain_view_tag ++ encode_chain_body v.id v.index v.state

unfoldable pub encode_chain : Chain → Bytes
encode_chain c = chain_tag ++ encode_chain_body c.id c.index c.state

all_hex : Bytes → Bool
all_hex [] = true
all_hex (c ∷ cs) = is_hex c && all_hex cs

-- What the body holds once its base64 is decoded.
from_raw : Bytes → Option Bytes → Result CodecError ChainView
from_raw id none = err base64
from_raw id (some raw) =
    if not (length raw == 4 + 32)
    then err body_length
    else ok (record { id = id; index = uint32 (take 4 raw); state = drop 4 raw })

from_parts : Option (Bytes × Bytes) → Result CodecError ChainView
from_parts none = err malformed
from_parts (some (id, rest)) =
    if length id == 0
    then err malformed
    else if not (length id == chain_id_len * 2)
    then err id_length
    else if not (all_hex id)
    then err id_digits
    else from_raw id (Base64.decode rest)

unfoldable pub decode_chain_body : Bytes → Result CodecError ChainView
unfolding from_parts from_raw all_hex
decode_chain_body s = from_parts (cut_at b':' s)

unfoldable pub decode_chain_view : Bytes → Result CodecError ChainView
decode_chain_view s =
    if has_prefix s chain_tag
    then err sending_chain
    else decode_chain_body (trim_prefix s chain_view_tag)

unfoldable pub decode_chain : Bytes → Result CodecError Chain
decode_chain s =
    if has_prefix s chain_view_tag
    then err chain_view
    else (decode_chain_body (trim_prefix s chain_tag) >>= λ v.
        ok (record { id = v.id; state = v.state; index = v.index }))
