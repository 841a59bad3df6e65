-- ===== src/E2ee/RoomSign.antt =====
-- internal/e2ee/roomsign.go: what a device signs, and the signed form of a room message.
pub mod Context
pub mod Payload
use bencchat.Prelude.{
  ℕ, zero, suc, ◌+◌, ◌≡◌, Bool, true, false, ◌&&◌, Option, none, some, List, [], ◌∷◌, ◌++◌, ltb,
  ◌==◌, if◌then◌else◌, length, take, drop, not,
}
use bencchat.Prelude.Bytes.{Bytes, bytes_eq}
use bencchat.Prelude.Outcome.{Result, ok, err}
use bencchat.Text.Hex
use bencchat.Text.Ascii.{bytes}
use bencchat.E2ee.Crypto.{Crypto, SigningKeyPair}
use bencchat.E2ee.ChainCodec.{put_uint32}
use bencchat.E2ee.Stamp.{Stamped, stamp_len, new_stamp, encode_stamped}

abbrev pub signer_id_len : ℕ
signer_id_len = 8

abbrev pub signed_payload_v1 : ℕ
signed_payload_v1 = 1

abbrev pub signed_payload_v2 : ℕ
signed_payload_v2 = 2

abbrev pub room_sig_domain : Bytes
room_sig_domain = bytes "BENCO-ROOMSIG-v1"

abbrev pub attest_domain : Bytes
attest_domain = bytes "BENCO-ATTEST-v1"

-- `uint32(len(s))` wraps, which `put_uint32` does by keeping the low 32 bits.
unfoldable pub append_len_prefixed : Bytes → Bytes → Bytes
append_len_prefixed dst s = dst ++ (put_uint32 (length s) ++ s)

unfoldable pub signing_context_v2 : Bytes → Bytes → Bytes → Bytes
signing_context_v2 room stamp message =
    append_len_prefixed (append_len_prefixed (room_sig_domain ++ 0 ∷ []) room ++ stamp) message

unfoldable pub attest_context : Bytes → Bytes → Bytes
attest_context screen_name nonce =
    append_len_prefixed (append_len_prefixed (attest_domain ++ 0 ∷ []) screen_name) nonce

pub record Parsed : Type 0 where
  pub message : Bytes
  pub signer_id : Bytes
  pub sig : Bytes
  pub stamp : Option Bytes
  pub signed : Bool

pub data ForgedSignature : Type 0 where
  forged_signature : ForgedSignature

abbrev pub header : ℕ
header = 1 + signer_id_len + 64

abbrev unsigned : Bytes → Parsed
unsigned message = record {
  message = message;
  signer_id = [];
  sig = [];
  stamp = none;
  signed = false;
}

parse_v2 : Bytes → Parsed
parse_v2 raw = if ltb (length raw) (header + stamp_len) then unsigned raw else record {
  message = drop (header + stamp_len) raw;
  signer_id = Hex.encode (take signer_id_len (drop 1 raw));
  sig = take 64 (drop (1 + signer_id_len) raw);
  stamp = some (take stamp_len (drop header raw));
  signed = true;
}

first_byte : Bytes → ℕ
first_byte [] = 0
first_byte (b ∷ bs) = b

unfoldable pub parse_signed_payload : Bytes → Parsed
unfolding parse_v2 first_byte
parse_signed_payload raw =
    if ltb (length raw) header
    then unsigned raw
    else if first_byte raw == signed_payload_v1
    then unsigned (drop header raw)
    else if first_byte raw == signed_payload_v2
    then parse_v2 raw
    else unsigned raw

module _ (c : Crypto) where
  unfoldable pub signer_id : Bytes → Bytes
  signer_id pub_key = Hex.encode (take signer_id_len (c.sha256 pub_key))

  -- `id, _ := hex.DecodeString(…)`: what was decoded, and nothing on an error.
  unfoldable pub raw_signer_id : Bytes → Bytes
  raw_signer_id pub_key = elim (Hex.decode (signer_id pub_key)) [ none ↦ [] | some id ↦ id ]

  unfoldable pub payload_with : Stamped → Bytes → Bytes → SigningKeyPair → Bytes
  payload_with st room message kp =
      signed_payload_v2
      ∷ (raw_signer_id kp.public_key
          ++ (c.sign kp.private_key (signing_context_v2 room (encode_stamped st []) message)
              ++ (encode_stamped st [] ++ message)))

  -- `random` is what `rand.Read` gives for the message's name, `now` the clock.
  unfoldable pub sign_payload : Option Bytes → ℕ → Bytes → Bytes → SigningKeyPair → Option Bytes
  sign_payload random now room message kp = elim (new_stamp random now) [
    | none ↦ none
    | some st ↦ some (payload_with st room message kp)
  ]

  -- The loop over the sender's keys: some key bears the name and verifies the signature.
  unfoldable pub any_verifies : Bytes → Bytes → Bytes → List Bytes → Bool
  any_verifies ctx signer sig [] = false
  any_verifies ctx signer sig (k ∷ ks) =
      let rest = any_verifies ctx signer sig ks in
      if bytes_eq (signer_id k) signer && c.verify k ctx sig then true else rest

  verify_context :
      Bytes → Bytes → Bytes → Bytes → Option Bytes → List Bytes → Result ForgedSignature Bool
  verify_context room message signer sig none ks = err forged_signature
  verify_context room message signer sig (some stamp) ks =
      if any_verifies (signing_context_v2 room stamp message) signer sig ks
      then ok true
      else err forged_signature

  -- `ok false`: no keys of the sender are known yet.
  unfoldable pub verify_signed :
      Bytes → Bytes → Bytes → Bytes → Option Bytes → List Bytes → Result ForgedSignature Bool
  unfolding verify_context
  verify_signed room message signer sig stamp [] = ok false
  verify_signed room message signer sig stamp (k ∷ ks) =
      verify_context room message signer sig stamp (k ∷ ks)

  unfoldable pub sign_attestation : Bytes → Bytes → Bytes → Bytes
  sign_attestation screen_name nonce priv = c.sign priv (attest_context screen_name nonce)

  unfoldable pub verify_attestation : Bytes → Bytes → Bytes → Bytes → Bool
  verify_attestation screen_name nonce pub_key sig =
      c.verify pub_key (attest_context screen_name nonce) sig
