-- ===== src/App/KeyDir.antt =====
-- app_keydir.go: which signed device lists are believed, and how this device learns of its own fate.
pub mod Outcomes
pub mod Counter
pub mod Pinned
pub mod Judged
pub mod Belief
pub mod Publish
use bencchat.Prelude.{
  ℕ, ◌+◌, ◌-◌, ◌^◌, Bool, true, false, ◌&&◌, ◌||◌, not, Option, none, some, List, [], ◌∷◌, ◌++◌,
  ltb, leb, ◌==◌, if◌then◌else◌, length,
}
use bencchat.Prelude.Bytes.{Bytes, bytes_eq}
use bencchat.Prelude.Assoc.{lookup, insert}
use bencchat.Text.Base64
use bencchat.Text.Hex
use bencchat.E2ee.Crypto.{Crypto, SigningKeyPair}
use bencchat.E2ee.Devices.{Device, box_keys_of}
use bencchat.State.ScreenName.{normalize_screen_name}
use bencchat.Wire.Manifest.{Key, DeviceEntry, Manifest, decode_manifest}

abbrev pub alg_x25519 : ℕ
alg_x25519 = 1

abbrev pub alg_ed25519 : ℕ
alg_ed25519 = 2

abbrev pub key_dir_version : ℕ
key_dir_version = 2

abbrev pub key_len : ℕ
key_len = 32

abbrev pub sig_len : ℕ
sig_len = 64

-- `math.MaxInt64`
abbrev pub max_int64 : ℕ
max_int64 = 2 ^ 63 - 1

-- internal/trust: an identity key with the highest counter accepted under it.
pub record Identity : Type 0 where
  pub key : Bytes
  pub counter : ℕ
  pub digest : Bytes

pub record Entry : Type 0 where
  pub verified : Bytes
  pub seen : Bytes
  pub identity : Identity

pub record SignedManifest : Type 0 where
  pub screen_name : Bytes
  pub present : Bool
  pub manifest : Bytes
  pub sig_alg : ℕ
  pub signature : Bytes

pub record Memo : Type 0 where
  pub sum : Bytes
  pub devices : List Device

pub data Notice : Type 0 where
  identity_changed : Bytes → Notice
  identity_replaced device_removed : Notice

-- The fields of App that these functions read and write. `self` is the signed-on screen name;
-- `leaving` is set where SignOff is started, and `remembered` says whether the password is kept.
pub record KeyDir : Type 0 where
  pub self : Bytes
  pub our_box : Bytes
  pub self_identity : Identity
  pub trust : List (Bytes × Entry)
  pub manifest_seen : List (Bytes × Memo)
  pub e2ee_devices : List Bytes
  pub manifest_issued_at : ℕ
  pub linked : Bool
  pub remembered : Bool
  pub leaving : Bool
  pub notices : List Notice

abbrev pub no_identity : Identity
no_identity = record { key = []; counter = 0; digest = [] }

-- `a.trust[who]`: the zero entry where there is none.
unfoldable pub entry_of : Bytes → List (Bytes × Entry) → Entry
entry_of who trust = elim (lookup who trust) [
  | none ↦ record { verified = []; seen = []; identity = no_identity }
  | some e ↦ e
]

-- The manifest that is already held, read again. A pin with no digest adopts this one's.
unfoldable pub same_statement : Identity → ℕ → Bytes → Bool
same_statement pinned counter digest =
    counter == pinned.counter && (bytes_eq digest pinned.digest || length pinned.digest == 0)

-- What the counter rule says: refused; accepted, and the pin stays; accepted, and the pin moves.
pub data Ruling : Type 0 where
  refuse keep pin : Ruling

unfoldable pub self_ruling : Identity → Bytes → ℕ → Bytes → Ruling
self_ruling pinned encoded counter digest =
    if length pinned.key == 0
    then pin
    else if not (bytes_eq pinned.key encoded)
    then keep
    else if same_statement pinned counter digest
    then pin
    else if leb counter pinned.counter
    then refuse
    else pin

unfoldable pub ruled : Ruling → Identity → KeyDir → Bool × KeyDir
ruled refuse id st = (false, st)
ruled keep id st = (true, st)
ruled pin id st = (true, record st { self_identity = id })

unfoldable pub identity_moved : Identity → Bytes → Bool
identity_moved prev encoded = not (length prev.key == 0) && not (bytes_eq prev.key encoded)

unfoldable pub peer_refuses : Identity → Bytes → ℕ → Bytes → Bool
peer_refuses prev encoded counter digest =
    not (identity_moved prev encoded)
    && (not (same_statement prev counter digest) && leb counter prev.counter)

unfoldable pub pin_peer : Bytes → Bytes → Identity → KeyDir → KeyDir
pin_peer who display id st = record st {
  trust = insert who (record (entry_of who st.trust) { identity = id }) st.trust;
  notices =
      if identity_moved (entry_of who st.trust).identity id.key
      then identity_changed display ∷ st.notices
      else st.notices;
}

unfoldable pub devices_from : List DeviceEntry → List Device
devices_from [] = []
devices_from (d ∷ ds) =
    let rest = devices_from ds in
    if not (d.box.alg == alg_x25519) || not (length d.box.key == key_len)
    then rest
    else record {
      box = d.box.key;
      sign = if d.sign.alg == alg_ed25519 && length d.sign.key == key_len then d.sign.key else [];
    }
      ∷ rest

-- e2ee.VerifyManifest
unfoldable pub signature_verifies : Crypto → Bytes → Bytes → Bytes → Bool
signature_verifies c key manifest sig =
    length key == key_len
    && (length sig == sig_len && (not (length manifest == 0) && c.verify key manifest sig))

unfoldable pub listed : Bytes → List Device → Bool
listed box [] = false
listed box (d ∷ ds) = let rest = listed box ds in if bytes_eq d.box box then true else rest

-- Signed out, with the saved password cleared.
unfoldable pub leave : Notice → KeyDir → KeyDir
leave n st = record st { notices = n ∷ st.notices; remembered = false; leaving = true }

unfoldable pub on_self_manifest : Bytes → ℕ → List Device → KeyDir → KeyDir
unfolding leave
on_self_manifest encoded issued devices st =
    let st1 : KeyDir = record st {
      e2ee_devices = box_keys_of devices;
      manifest_issued_at = issued;
    } in
    if not (length st.self_identity.key == 0) && not (bytes_eq st.self_identity.key encoded)
    then leave identity_replaced (record st1 { linked = false })
    else (let here = listed st.our_box devices in
        if here || not st.linked
        then record st1 { linked = here }
        else leave device_removed (record st1 { linked = here }))

module _ (c : Crypto) (to_lower : Bytes → Bytes) where
  unfoldable pub is_self : Bytes → KeyDir → Bool
  is_self name st =
      not (length st.self == 0)
      && bytes_eq (normalize_screen_name to_lower st.self) (normalize_screen_name to_lower name)

  unfoldable pub accept_counter : Bytes → Bytes → Identity → KeyDir → Bool × KeyDir
  unfolding ruled self_ruling peer_refuses pin_peer
  accept_counter who display id st =
      if is_self display st
      then ruled (self_ruling st.self_identity id.key id.counter id.digest) id st
      else if peer_refuses (entry_of who st.trust).identity id.key id.counter id.digest
      then (false, st)
      else (true, pin_peer who display id st)

  -- The identity that a manifest claims, as it is pinned.
  unfoldable pub identity_of : Bytes → Manifest → Identity
  identity_of bytes m = record {
    key = Base64.encode m.identity.key;
    counter = m.counter;
    digest = Hex.encode (c.sha256 bytes);
  }

  -- The tests that need no state.
  unfoldable pub well_signed : SignedManifest → Bytes → Manifest → Bool
  well_signed sm who m =
      m.version == key_dir_version
      && ((m.identity.alg == alg_ed25519 && length m.identity.key == key_len)
          && (signature_verifies c m.identity.key sm.manifest sm.signature
              && (bytes_eq (normalize_screen_name to_lower m.screen_name) who
                  && (not (m.counter == 0) && not (ltb max_int64 m.counter)))))

  unfoldable pub remember : Bytes → Bytes → List Device → KeyDir → KeyDir
  remember who bytes devices st = record st {
    manifest_seen =
        insert who (record { sum = c.sha256 bytes; devices = devices }) st.manifest_seen;
  }

  -- A manifest that passed those tests.
  unfoldable pub believe :
      SignedManifest → Bytes → Manifest → KeyDir → Option (List Device) × KeyDir
  unfolding accept_counter remember identity_of
  believe sm who m st =
      let id = identity_of sm.manifest m in
      let (accepted, st1) = accept_counter who sm.screen_name id st in
      if not accepted
      then (none, st1)
      else (let devices = devices_from m.devices in
          let st2 = remember who sm.manifest devices st1 in
          (
            some devices,
            if is_self sm.screen_name st2
                then on_self_manifest id.key m.issued_at devices st2
                else st2,
          ))

  -- The last manifest of this account that was verified, if these are its bytes.
  unfoldable pub memoized : Bytes → Bytes → KeyDir → Option (List Device)
  memoized who bytes st = elim (lookup who st.manifest_seen) [
    | none ↦ none
    | some memo ↦ if bytes_eq memo.sum (c.sha256 bytes) then some memo.devices else none
  ]

  unfoldable pub verify_manifest : SignedManifest → KeyDir → Option (List Device) × KeyDir
  unfolding believe well_signed memoized
  verify_manifest sm st =
      if not sm.present || length sm.manifest == 0
      then (none, st)
      else (let who = normalize_screen_name to_lower sm.screen_name in
          elim (memoized who sm.manifest st) [
            | some devices ↦ (some devices, st)
            | none ↦
                if not (sm.sig_alg == alg_ed25519)
                then (none, st)
                else elim (decode_manifest sm.manifest) [
                  | none ↦ (none, st)
                  | some m ↦ if well_signed sm who m then believe sm who m st else (none, st)
                ]
          ])
