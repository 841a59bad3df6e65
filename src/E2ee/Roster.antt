-- ===== src/E2ee/Roster.antt =====
-- internal/e2ee/roster.go: signed statements about who is in a room.
pub mod Context
pub mod RoundTrip
pub mod Verifying
use bencchat.Prelude.{
  ℕ, zero, suc, ◌+◌, Bool, true, false, ◌&&◌, ◌||◌, not, Option, none, some, List, [], ◌∷◌, ◌++◌,
  ltb, ◌==◌, if◌then◌else◌, length, take, drop,
}
use bencchat.Prelude.Bytes.{Bytes, bytes_eq}
use bencchat.Prelude.Outcome.{Result, ok, err}
use bencchat.Text.Ascii.{bytes, has_prefix}
use bencchat.Text.Base64
use bencchat.E2ee.Crypto.{Crypto, SigningKeyPair}
use bencchat.E2ee.ChainCodec.{put_uint32, uint32}
use bencchat.E2ee.Stamp.{put_uint64, uint64}
use bencchat.E2ee.RoomSign.{append_len_prefixed, signer_id}

-- "\x1bBENCO-ROSTER:v2:"
abbrev pub roster_prefix : Bytes
roster_prefix = 0x1b ∷ bytes "BENCO-ROSTER:v2:"

abbrev pub legacy_roster_prefix : Bytes
legacy_roster_prefix = 0x1b ∷ bytes "BENCO-ROSTER:v1:"

abbrev pub roster_domain : Bytes
roster_domain = bytes "BENCO-ROSTER-v2"

abbrev pub max_roster_members : ℕ
max_roster_members = 1024

pub record Roster : Type 0 where
  pub room : Bytes
  pub epoch : ℕ
  pub members : List Bytes
  pub removed : List Bytes
  pub owner : Bytes
  pub author : Bytes
  pub signer : Bytes
  pub signature : Bytes

pub data RosterError : Type 0 where
  too_many legacy_roster not_roster bad_base64 truncated : RosterError

unfoldable pub append_names : Bytes → List Bytes → Bytes
append_names out [] = out
append_names out (n ∷ ns) = append_names (append_len_prefixed out n) ns

unfoldable pub append_name_list : Bytes → List Bytes → Bytes
append_name_list out names = append_names (out ++ put_uint32 (length names)) names

unfoldable pub roster_signing_context : Roster → Bytes
roster_signing_context r =
    let out = roster_domain ++ 0 ∷ [] in
    let out =
      append_len_prefixed (append_len_prefixed (append_len_prefixed out r.room) r.owner) r.author in
    append_name_list (append_name_list (out ++ put_uint64 r.epoch) r.members) r.removed

unfoldable pub within_bounds : Roster → Bool
within_bounds r =
    not (ltb max_roster_members (length r.members))
    && not (ltb max_roster_members (length r.removed))

unfoldable pub is_roster : Bytes → Bool
is_roster body = has_prefix body roster_prefix || has_prefix body legacy_roster_prefix

unfoldable pub roster_body : Roster → Bytes
roster_body r =
    let out = append_len_prefixed (append_len_prefixed [] r.room) r.owner in
    let out = append_len_prefixed (append_len_prefixed out r.author) r.signer in
    append_len_prefixed
      (append_name_list (append_name_list (out ++ put_uint64 r.epoch) r.members) r.removed)
      r.signature

unfoldable pub encode_roster : Roster → Result RosterError Bytes
encode_roster r =
    if within_bounds r then ok (roster_prefix ++ Base64.encode (roster_body r)) else err too_many

-- `take()`: a field and what is left of the text. (The code adds the 4 bytes of the length in 32 bits;
-- fields within four bytes of 4 GiB, where that wraps, are outside the model.)
unfoldable pub take_field : Bytes → Option (Bytes × Bytes)
take_field raw =
    if ltb (length raw) 4
    then none
    else if ltb (length (drop 4 raw)) (uint32 (take 4 raw))
    then none
    else some (take (uint32 (take 4 raw)) (drop 4 raw), drop (uint32 (take 4 raw)) (drop 4 raw))

unfoldable pub take_fields : ℕ → Bytes → Option (List Bytes × Bytes)
take_fields zero raw = some ([], raw)
take_fields (suc n) raw = elim (take_field raw) [
  | none ↦ none
  | some (name, rest) ↦ elim (take_fields n rest) [
    | none ↦ none
    | some (names, left) ↦ some (name ∷ names, left)
  ]
]

unfoldable pub take_list : Bytes → Result RosterError (List Bytes × Bytes)
take_list raw =
    if ltb (length raw) 4
    then err truncated
    else if ltb max_roster_members (uint32 (take 4 raw))
    then err too_many
    else elim (take_fields (uint32 (take 4 raw)) (drop 4 raw)) [
      | none ↦ err truncated
      | some p ↦ ok p
    ]

-- The lists and the signature, behind the epoch.
unfoldable pub decode_lists : Roster → Bytes → Result RosterError Roster
decode_lists r raw = elim (take_list raw) [
  | err e ↦ err e
  | ok (members, more) ↦ elim (take_list more) [
    | err e ↦ err e
    | ok (removed, last) ↦ elim (take_field last) [
      | none ↦ err truncated
      | some (sig, _) ↦ ok (record r { members = members; removed = removed; signature = sig })
    ]
  ]
]

unfoldable pub decode_epoch : Roster → Bytes → Result RosterError Roster
decode_epoch r raw =
    if ltb (length raw) 8
    then err truncated
    else decode_lists (record r { epoch = uint64 (take 8 raw) }) (drop 8 raw)

-- The four texts at the front.
unfoldable pub named : List Bytes → Bytes → Result RosterError Roster
named (room ∷ owner ∷ author ∷ signer ∷ []) rest =
    decode_epoch
      (record {
        room = room;
        epoch = 0;
        members = [];
        removed = [];
        owner = owner;
        author = author;
        signer = signer;
        signature = [];
      })
      rest
named _ rest = err truncated

unfoldable pub decode_body : Bytes → Result RosterError Roster
decode_body raw = elim (take_fields 4 raw) [
  | none ↦ err truncated
  | some (fields, rest) ↦ named fields rest
]

unfoldable pub decode_roster : Bytes → Result RosterError Roster
decode_roster body =
    if has_prefix body legacy_roster_prefix
    then err legacy_roster
    else if not (has_prefix body roster_prefix)
    then err not_roster
    else elim (Base64.decode (drop (length roster_prefix) body)) [
      | none ↦ err bad_base64
      | some raw ↦ decode_body raw
    ]

module _ (c : Crypto) where
  unfoldable pub sign_roster : Roster → SigningKeyPair → Result RosterError Roster
  sign_roster r kp =
      if within_bounds r
      then ok (record r {
        signer = signer_id c kp.public_key;
        signature = c.sign kp.private_key (roster_signing_context r);
      })
      else err too_many

  unfoldable pub some_key_verifies : Roster → List Bytes → Bool
  some_key_verifies r [] = false
  some_key_verifies r (k ∷ ks) =
      let rest = some_key_verifies r ks in
      if not (bytes_eq (signer_id c k) r.signer)
      then rest
      else if c.verify k (roster_signing_context r) r.signature
      then true
      else rest

  -- `ok`: it verifies. With no key known nothing does.
  unfoldable pub verify_roster : Roster → List Bytes → Bool
  verify_roster r keys = length r.signature == 64 && some_key_verifies r keys
