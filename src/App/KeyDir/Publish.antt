-- ===== src/App/KeyDir/Publish.antt =====
-- app_keydir.go, publishing: a device list is signed above the highest counter that is known, and once
-- more above the server's where the server holds a newer one.
pub mod Stored
pub mod Reread
use bencchat.Prelude.{
  ℕ, zero, suc, ◌+◌, ◌≤◌, ◌<◌, Bool, true, false, not, Option, none, some, List, [], ◌∷◌, ◌≡◌, refl,
  ◌⊎◌, inl, inr, ltb, leb, ◌==◌, if◌then◌else◌, length,
}
use bencchat.Prelude.Bytes.{Bytes}
use bencchat.Prelude.Assoc.{insert}
use bencchat.Prelude.Outcome.{Result, ok, err}
use bencchat.Text.Base64
use bencchat.Text.Hex
use bencchat.E2ee.Crypto.{Crypto, SigningKeyPair}
use bencchat.E2ee.Devices.{Device, box_keys_of, max_devices}
use bencchat.State.ScreenName.{normalize_screen_name}
use bencchat.Wire.Manifest.{Key, DeviceEntry, Manifest, encode_manifest}
use bencchat.App.KeyDir.{
  Identity, Memo, KeyDir, alg_x25519, alg_ed25519, key_dir_version, key_len, sig_len, max_int64,
}

abbrev pub max_manifest_len : ℕ
max_manifest_len = 16384

-- `ed25519.PrivateKeySize`
abbrev pub private_key_len : ℕ
private_key_len = 64

pub data PublishError : Type 0 where
  no_key_dir not_signed_on too_many_devices not_encoded not_signed no_answer identity_pinned :
      PublishError
  refused counter_top raced : PublishError

pub data Outcome : Type 0 where
  rejected stored pinned : Outcome

pub record Reply : Type 0 where
  pub outcome : Outcome
  pub counter : ℕ

abbrev no_key : Key
no_key = record { alg = 0; key = [] }

unfoldable pub device_entry : Device → DeviceEntry
device_entry d = record {
  box = record { alg = alg_x25519; key = d.box };
  sign = if length d.sign == key_len then record { alg = alg_ed25519; key = d.sign } else no_key;
  label = [];
}

unfoldable pub device_entries : List Device → List DeviceEntry
unfolding device_entry
device_entries [] = []
device_entries (d ∷ ds) = device_entry d ∷ device_entries ds

unfoldable pub statement : Bytes → Bytes → ℕ → ℕ → List Device → Manifest
unfolding device_entries
statement name identity counter now devices = record {
  version = key_dir_version;
  screen_name = name;
  counter = counter;
  issued_at = now;
  identity = record { alg = alg_ed25519; key = identity };
  devices = device_entries devices;
}

unfoldable pub build_manifest : Bytes → Bytes → ℕ → ℕ → List Device → Option Bytes
build_manifest name identity counter now devices =
    elim (encode_manifest (statement name identity counter now devices)) [
      | none ↦ none
      | some b ↦ if ltb max_manifest_len (length b) then none else some b
    ]

-- `nextCounter`
unfoldable pub next_counter : Identity → ℕ
next_counter pin = if pin.counter == 0 then 1 else pin.counter + 1

-- The published statement is recorded as the pin and as the memo.
pub record Published : Type 0 where
  pub manifest : Bytes
  pub signature : Bytes
  pub counter : ℕ
  pub issued_at : ℕ

module _ (c : Crypto) (to_lower : Bytes → Bytes) where
  -- e2ee.SignManifest
  unfoldable pub sign_manifest : SigningKeyPair → Bytes → Option Bytes
  sign_manifest kp manifest =
      if not (length kp.private_key == private_key_len)
      then none
      else if length manifest == 0
      then none
      else some (c.sign kp.private_key manifest)

  unfoldable pub record_published : SigningKeyPair → List Device → Published → KeyDir → KeyDir
  record_published kp devices p st = record st {
    self_identity = record {
      key = Base64.encode kp.public_key;
      counter = p.counter;
      digest = Hex.encode (c.sha256 p.manifest);
    };
    manifest_seen =
        insert (normalize_screen_name to_lower st.self)
          (record { sum = c.sha256 p.manifest; devices = devices }) st.manifest_seen;
    e2ee_devices = box_keys_of devices;
    manifest_issued_at = p.issued_at;
    linked = true;
  }

  -- What the server makes of an attempt, by how many attempts are left; and the clock.
  module _ (server : ℕ → Bytes → Bytes → Option Reply) (clock : ℕ → ℕ) where
    -- One attempt, and with it what is signed.
    unfoldable pub attempt :
        ℕ → SigningKeyPair → List Device → ℕ → KeyDir → Result PublishError (Published × Reply)
    unfolding sign_manifest
    attempt left kp devices counter st =
        elim (build_manifest st.self kp.public_key counter (clock left) devices) [
          | none ↦ err not_encoded
          | some manifest ↦ elim (sign_manifest kp manifest) [
            | none ↦ err not_signed
            | some sig ↦ elim (server left manifest sig) [
              | none ↦ err no_answer
              | some reply ↦ ok (
                record {
                  manifest = manifest;
                  signature = sig;
                  counter = counter;
                  issued_at = clock left;
                },
                reply,
              )
            ]
          ]
        ]

    -- After a refusal: the counter to climb to.
    unfoldable pub climb : ℕ → ℕ → Result PublishError ℕ
    climb counter server_counter =
        if ltb server_counter counter
        then err refused
        else if leb max_int64 server_counter
        then err counter_top
        else ok (server_counter + 1)

    -- A success hands out what was published.
    unfoldable pub publish_from :
        ℕ → SigningKeyPair → List Device → ℕ → KeyDir → Result PublishError Published × KeyDir
    unfolding climb record_published
    publish_from zero kp devices counter st = (err raced, st)
    publish_from (suc left) kp devices counter st = elim (attempt left kp devices counter st) [
      | err e ↦ (err e, st)
      | ok (p, reply) ↦ elim reply.outcome [
        | pinned ↦ (err identity_pinned, st)
        | stored ↦ (ok p, record_published kp devices p st)
        | rejected ↦ elim (climb counter reply.counter) [
          | err e ↦ (err e, st)
          | ok higher ↦ publish_from left kp devices higher st
        ]
      ]
    ]

    unfoldable pub publish_manifest :
        Bool → SigningKeyPair → List Device → KeyDir → Result PublishError Published × KeyDir
    unfolding next_counter
    publish_manifest supported kp devices st =
        if not supported
        then (err no_key_dir, st)
        else if length st.self == 0
        then (err not_signed_on, st)
        else if ltb max_devices (length devices)
        then (err too_many_devices, st)
        else publish_from 2 kp devices (next_counter st.self_identity) st
