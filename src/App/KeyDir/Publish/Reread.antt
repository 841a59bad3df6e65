-- ===== src/App/KeyDir/Publish/Reread.antt =====
-- The statement that was published, read back after a restart.
use bencchat.Prelude.{
  ◌≤◌, true, Option, none, some, List, [], ◌≡◌, ◌≢◌, refl, sym, ◌∙◌, subst, length, arith,
  append-nil,
}
use bencchat.Prelude.Bytes.{Bytes, bytes_eq_refl}
use bencchat.Prelude.Assoc.{lookup}
use bencchat.Text.Base64
use bencchat.E2ee.Crypto.{Crypto, SigningKeyPair, IsCrypto, IsKeyPair}
use bencchat.E2ee.Devices.{Device}
use bencchat.State.ScreenName.{normalize_screen_name}
use bencchat.Wire.Codec.Fits.{fits}
use bencchat.Wire.Manifest.{
  Manifest, manifest_value, manifest_shape, encode_manifest, decode_manifest,
}
use bencchat.Wire.Manifest.RoundTrip.{decode_manifest-encode_manifest}
use bencchat.App.KeyDir.{
  Identity, SignedManifest, KeyDir, alg_ed25519, key_len, max_int64, same_statement, pin,
  self_ruling, ruled, devices_from, listed, signature_verifies, on_self_manifest, is_self,
  accept_counter, identity_of, well_signed, remember, believe, memoized, verify_manifest,
}
use bencchat.App.KeyDir.Publish.{Published, statement, device_entries, record_published}
use bencchat.App.KeyDir.Publish.Stored.{IsStatement}

some_injective : (b b' : Bytes) → ◌≡◌ {A = Option Bytes} (some b) (some b') → b ≡ b'
some_injective b b' e = ground (arith, e)

self_ruling_same : (id : Identity) → self_ruling id id.key id.counter id.digest ≡ pin
unfolding self_ruling same_statement
self_ruling_same id = ground (arith, bytes_eq_refl id.key, bytes_eq_refl id.digest)

module _ (c : Crypto) (to_lower : Bytes → Bytes) (law : IsCrypto c) (kp : SigningKeyPair)
    (pair : IsKeyPair c kp) (key_size : length kp.public_key ≡ key_len) (devices : List Device)
    (p : Published) (st : KeyDir) where
  -- The state after the restart, and the directory's answer to a query for our own account.
  abbrev pub restarted : KeyDir
  restarted = record (record_published c to_lower kp devices p st) { manifest_seen = [] }

  abbrev pub answer : SignedManifest
  answer = record {
    screen_name = st.self;
    present = true;
    manifest = p.manifest;
    sig_alg = alg_ed25519;
    signature = p.signature;
  }

  abbrev pub stated : Manifest
  stated = statement st.self kp.public_key p.counter p.issued_at devices

  decoded :
      encode_manifest stated ≡ some p.manifest
      → fits (manifest_value stated) manifest_shape ≡ true
      → decode_manifest p.manifest ≡ some stated
  decoded e h =
      let (b, written, read) = decode_manifest-encode_manifest stated h in
      let same : b ≡ p.manifest = some_injective b p.manifest (sym written ∙ e) in
      subst (λ z. decode_manifest z ≡ some stated) (append-nil b ∙ same) (read [])

  stated-well_signed :
      p.signature ≡ c.sign kp.private_key p.manifest
      → length p.manifest ≢ 0
      → 1 ≤ p.counter
      → p.counter ≤ max_int64
      → well_signed c to_lower answer (normalize_screen_name to_lower st.self) stated ≡ true
  unfolding well_signed signature_verifies statement
  stated-well_signed signed full low high =
      rw
        (
          signed,
          key_size,
          law.sign_length kp.private_key p.manifest,
          pair p.manifest,
          bytes_eq_refl (normalize_screen_name to_lower st.self),
        )
        (ground arith)

  ours : length st.self ≢ 0 → is_self c to_lower st.self restarted ≡ true
  unfolding is_self record_published
  ours on = ground (arith, bytes_eq_refl (normalize_screen_name to_lower st.self))

  -- The devices that the statement names, as they are read.
  abbrev pub read_devices : List Device
  read_devices = devices_from (device_entries devices)

  ours_remembered :
      length st.self ≢ 0
      → is_self c to_lower st.self (
          remember c to_lower
            (normalize_screen_name to_lower st.self)
            p.manifest
            read_devices
            restarted)
        ≡ true
  unfolding is_self record_published remember
  ours_remembered on = ground (arith, bytes_eq_refl (normalize_screen_name to_lower st.self))

  accepted :
      length st.self ≢ 0
      → accept_counter c to_lower
          (normalize_screen_name to_lower st.self)
          st.self
          (identity_of c to_lower p.manifest stated)
          restarted
        ≡ (true, restarted)
  unfolding accept_counter ruled identity_of statement record_published
  accepted on = rw (ours on, self_ruling_same (identity_of c to_lower p.manifest stated)) refl

  abbrev settled : KeyDir
  settled = on_self_manifest (Base64.encode kp.public_key) p.issued_at read_devices (
      remember c to_lower (normalize_screen_name to_lower st.self) p.manifest read_devices
        restarted)

  believed :
      length st.self ≢ 0
      → believe c to_lower answer (normalize_screen_name to_lower st.self) stated restarted
        ≡ (some read_devices, settled)
  unfolding believe devices_from is_self on_self_manifest device_entries statement
  believed on =
      let st2 =
        remember c to_lower (normalize_screen_name to_lower st.self) p.manifest read_devices
          restarted in
      let mine : is_self c to_lower st.self st2 ≡ true = ours_remembered on in
      rw (accepted on) (rw mine refl)

  settled_lem :
      listed st.our_box read_devices ≡ true
      → (settled.self_identity ≡ restarted.self_identity)
        × (settled.linked ≡ true)
        × (settled.leaving ≡ st.leaving)
        × (settled.notices ≡ st.notices)
  unfolding on_self_manifest remember record_published
  settled_lem here =
      let same = bytes_eq_refl (Base64.encode kp.public_key) in
      (
        ground (arith, here, same),
        ground (arith, here, same),
        ground (arith, here, same),
        ground (arith, here, same),
      )

  -- A device list that was published is believed again after a restart, when nothing is remembered but
  -- the pin: it teaches the devices it names, the pin stays as it is, the device counts as linked,
  -- nothing is shown and nobody is signed out. (The list names this device, its fields fit their
  -- prefixes, and the account's key pair is one of ed25519's.)
  pub verify_manifest-published :
      length st.self ≢ 0
      → IsStatement c to_lower (λ _ _ _. none) (λ _. 0) kp devices p.counter st p
      → 1 ≤ p.counter
      → p.counter ≤ max_int64
      → fits (manifest_value stated) manifest_shape ≡ true
      → listed st.our_box read_devices ≡ true
      → (st' : KeyDir) × (verify_manifest c to_lower answer restarted ≡ (some read_devices, st'))
        × (st'.self_identity ≡ restarted.self_identity)
        × (st'.linked ≡ true)
        × (st'.leaving ≡ st.leaving)
        × (st'.notices ≡ st.notices)
  unfolding verify_manifest
  verify_manifest-published on made low high sizes here =
      let (pins, links, leaves, notes) = settled_lem here in
      let new : memoized c to_lower (normalize_screen_name to_lower st.self) p.manifest restarted
          ≡ none =
        unfold memoized lookup in refl in
      (
        settled,
        ground (
          arith,
          decoded made.encoded sizes,
          stated-well_signed made.signed made.not_empty low high,
          believed on,
          made.not_empty,
          new,
        ),
        pins,
        links,
        leaves,
        notes,
      )
