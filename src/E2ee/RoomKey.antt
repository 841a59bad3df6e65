-- ===== src/E2ee/RoomKey.antt =====
-- internal/e2ee/room.go: room messages sealed under a key that the whole room shares.
use bencchat.Prelude.{
  ℕ, ◌+◌, Bool, ◌||◌, Option, none, some, List, ◌∷◌, ◌++◌, if◌then◌else◌, length, take, drop, ◌==◌,
}
use bencchat.Prelude.Bytes.{Bytes}
use bencchat.Prelude.Outcome.{Result, ok, err}
use bencchat.Prelude.Assoc.{lookup}
use bencchat.Text.Base64
use bencchat.Text.Hex
use bencchat.Text.Ascii.{bytes, has_prefix, cut_at}
use bencchat.E2ee.Crypto.{Crypto, SigningKeyPair}
use bencchat.E2ee.RoomSign.{sign_payload}
use bencchat.E2ee.RoomChain.{OpenError, SignedMessage, room_envelope_prefix_v3, open_sealed}

abbrev pub room_envelope_prefix : Bytes
room_envelope_prefix = 0x1b ∷ bytes "BENCO-ROOM:v1:"

abbrev pub room_envelope_prefix_v2 : Bytes
room_envelope_prefix_v2 = 0x1b ∷ bytes "BENCO-ROOM:v2:"

abbrev pub room_key_id_len : ℕ
room_key_id_len = 8

unfoldable pub is_room_envelope : Bytes → Bool
is_room_envelope body =
    has_prefix body room_envelope_prefix
    || (has_prefix body room_envelope_prefix_v2 || has_prefix body room_envelope_prefix_v3)

-- What follows the prefix of either shared-key form.
unfoldable pub room_envelope_rest : Bytes → Option Bytes
room_envelope_rest body =
    if has_prefix body room_envelope_prefix_v2
    then some (drop (length room_envelope_prefix_v2) body)
    else if has_prefix body room_envelope_prefix
    then some (drop (length room_envelope_prefix) body)
    else none

key_name : Option (Bytes × Bytes) → Option Bytes
key_name none = none
key_name (some (id, rest)) = if length id == 0 then none else some id

unfoldable pub room_envelope_key_id : Bytes → Option Bytes
unfolding key_name
room_envelope_key_id body = elim (room_envelope_rest body) [
  | none ↦ none
  | some rest ↦ key_name (cut_at b':' rest)
]

pub data RoomOpenError : Type 0 where
  not_room_envelope unknown_room_key : RoomOpenError
  failed : OpenError → RoomOpenError

lift : Result OpenError SignedMessage → Result RoomOpenError SignedMessage
lift (ok m) = ok m
lift (err e) = err (failed e)

module _ (c : Crypto) where
  unfoldable pub room_key_id : Bytes → Bytes
  room_key_id key = Hex.encode (take room_key_id_len (c.sha256 key))

  unfoldable pub seal_room_payload : Option Bytes → Bytes → Bytes → Bytes → Option Bytes
  seal_room_payload random payload key prefix = elim random [
    | none ↦ none
    | some n ↦
        some (prefix ++ (room_key_id key ++ b':' ∷ Base64.encode (n ++ c.seal n key payload)))
  ]

  unfoldable pub seal_room : Option Bytes → Bytes → Bytes → Option Bytes
  seal_room random message key = seal_room_payload random message key room_envelope_prefix

  unfoldable pub seal_room_signed :
      Option Bytes → ℕ → Option Bytes → Bytes → Bytes → Bytes → SigningKeyPair → Option Bytes
  seal_room_signed name now random room message key signer =
      elim (sign_payload c name now room message signer) [
        | none ↦ none
        | some payload ↦ seal_room_payload random payload key room_envelope_prefix_v2
      ]

  unfoldable pub open_room_signed :
      Bytes → Bytes → List (Bytes × Bytes) → List Bytes → Result RoomOpenError SignedMessage
  unfolding lift
  open_room_signed room envelope keys sender_keys = elim (room_envelope_rest envelope) [
    | none ↦ err not_room_envelope
    | some rest ↦ elim (room_envelope_key_id envelope) [
      | none ↦ err not_room_envelope
      | some id ↦ elim (lookup id keys) [
        | none ↦ err unknown_room_key
        | some key ↦
            lift (open_sealed c room key (Base64.decode (drop (length id + 1) rest)) sender_keys)
      ]
    ]
  ]
