-- ===== src/E2ee/RoomChain.antt =====
-- internal/e2ee/roomchain.go: room messages sealed under the sender's own chain.
pub mod Envelope
pub mod Delivery
pub mod Outcomes
use bencchat.Prelude.{
  ℕ, ◌+◌, ◌*◌, Bool, true, false, ◌&&◌, Option, none, some, List, [], ◌∷◌, ◌++◌, ltb, ◌==◌,
  if◌then◌else◌, length, take, drop, not,
}
use bencchat.Prelude.Bytes.{Bytes}
use bencchat.Prelude.Outcome.{Result, ok, err}
use bencchat.Prelude.Assoc.{lookup}
use bencchat.Text.Base64
use bencchat.Text.Ascii.{bytes, has_prefix, cut_at}
use bencchat.Text.Uint.{format_uint, parse_uint}
use bencchat.E2ee.Crypto.{Crypto, SigningKeyPair}
use bencchat.E2ee.Ratchet
use bencchat.E2ee.Ratchet.{Chain, ChainView, ChainError, next, message_key}
use bencchat.E2ee.ChainCodec.{chain_id_len}
use bencchat.E2ee.Stamp.{Stamped, decode_stamped}
use bencchat.E2ee.RoomSign.{
  Parsed, ForgedSignature, forged_signature, sign_payload, parse_signed_payload, verify_signed,
}

-- "\x1bBENCO-ROOM:v3:"
abbrev pub room_envelope_prefix_v3 : Bytes
room_envelope_prefix_v3 = 0x1b ∷ bytes "BENCO-ROOM:v3:"

unfoldable pub is_room_chain_envelope : Bytes → Bool
is_room_chain_envelope body = has_prefix body room_envelope_prefix_v3

-- `strings.SplitN(rest, ":", 3)` where it has three parts.
unfoldable pub split_three : Bytes → Option (Bytes × Bytes × Bytes)
split_three s = elim (cut_at b':' s) [
  | none ↦ none
  | some (a, more) ↦ elim (cut_at b':' more) [ none ↦ none | some (b, c) ↦ some (a, b, c) ]
]

envelope_fields : Option (Bytes × Bytes × Bytes) → Option (Bytes × ℕ)
envelope_fields none = none
envelope_fields (some (id, position, _)) =
    if not (length id == chain_id_len * 2)
    then none
    else elim (parse_uint position) [ none ↦ none | some n ↦ some (id, n) ]

unfoldable pub room_envelope_chain : Bytes → Option (Bytes × ℕ)
unfolding envelope_fields
room_envelope_chain body =
    if is_room_chain_envelope body
    then envelope_fields (split_three (drop (length room_envelope_prefix_v3) body))
    else none

pub data SealError : Type 0 where
  no_outbound_chain stamp_failed nonce_failed : SealError

pub record SignedMessage : Type 0 where
  pub text : Bytes
  pub signer_id : Bytes
  pub signed : Bool
  pub verified : Bool
  pub sent_at : Option ℕ
  pub id : Bytes

-- A forged message is reported with what it says.
pub data OpenError : Type 0 where
  not_chain_envelope unknown_chain bad_base64 truncated unauthenticated : OpenError
  chain_error : ChainError → OpenError
  forged : SignedMessage → OpenError

pub envelope_text : Bytes → ℕ → Bytes → Bytes
envelope_text id index sealed =
    room_envelope_prefix_v3 ++ (id ++ b':' ∷ (format_uint index ++ b':' ∷ Base64.encode sealed))

-- The stamp is recorded where it is there and long enough.
with_stamp : Option Bytes → SignedMessage → SignedMessage
with_stamp none m = m
with_stamp (some stamp) m = elim (decode_stamped stamp) [
  | err _ ↦ m
  | ok st ↦ record m { sent_at = some st.sent_at; id = st.id }
]

opened_message : Parsed → SignedMessage
unfolding with_stamp
opened_message p = with_stamp p.stamp (record {
  text = p.message;
  signer_id = p.signer_id;
  signed = p.signed;
  verified = false;
  sent_at = none;
  id = [];
})

pub envelope_payload : Option (Bytes × Bytes × Bytes) → Option Bytes
envelope_payload none = none
envelope_payload (some (_, _, text)) = Base64.decode text

module _ (c : Crypto) where
  -- The nonce comes from `rand.Read` after the chain has moved: a failure burns the position.
  seal_with : Option Bytes → Bytes → Chain → Result SealError Bytes × Option Chain
  unfolding envelope_text
  seal_with nonce payload chain =
      let (key, index, moved) = next c.hmac chain in
      (
        elim nonce [
          | none ↦ err nonce_failed
          | some n ↦ ok (envelope_text chain.id index (n ++ c.seal n key payload))
        ],
        some moved,
      )

  -- `name` and `random` are what `rand.Read` gives, `now` is the clock.
  unfoldable pub seal_room_chain :
      Option Bytes
      → ℕ
      → Option Bytes
      → Bytes
      → Bytes
      → Option Chain
      → SigningKeyPair
      → Result SealError Bytes × Option Chain
  unfolding seal_with
  seal_room_chain name now random room message none signer = (err no_outbound_chain, none)
  seal_room_chain name now random room message (some chain) signer =
      elim (sign_payload c name now room message signer) [
        | none ↦ (err stamp_failed, some chain)
        | some payload ↦ seal_with random payload chain
      ]

  check_signature : Bytes → Parsed → List Bytes → Result OpenError SignedMessage
  unfolding opened_message
  check_signature room p keys =
      if not p.signed
      then ok (opened_message p)
      else elim (verify_signed c room p.message p.signer_id p.sig p.stamp keys) [
        | err _ ↦ err (forged (opened_message p))
        | ok verified ↦ ok (record (opened_message p) { verified = verified })
      ]

  pub open_sealed : Bytes → Bytes → Option Bytes → List Bytes → Result OpenError SignedMessage
  unfolding check_signature
  open_sealed room key none keys = err bad_base64
  open_sealed room key (some raw) keys =
      if ltb (length raw) (24 + 16)
      then err truncated
      else elim (c.unseal (take 24 raw) key (drop 24 raw)) [
        | none ↦ err unauthenticated
        | some plain ↦ check_signature room (parse_signed_payload plain) keys
      ]

  unfoldable pub open_room_chain :
      Bytes → Bytes → List (Bytes × ChainView) → List Bytes → Result OpenError SignedMessage
  unfolding open_sealed envelope_payload
  open_room_chain room envelope views keys = elim (room_envelope_chain envelope) [
    | none ↦ err not_chain_envelope
    | some (chain_id, index) ↦ elim (lookup chain_id views) [
      | none ↦ err unknown_chain
      | some view ↦ elim (message_key c.hmac view index) [
        | err e ↦ err (chain_error e)
        | ok key ↦
            open_sealed room key
              (envelope_payload (split_three (drop (length room_envelope_prefix_v3) envelope))) keys
      ]
    ]
  ]
