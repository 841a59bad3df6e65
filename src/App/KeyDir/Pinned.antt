-- ===== src/App/KeyDir/Pinned.antt =====
-- app_keydir.go: what a believed device list leaves behind, and what the pins keep.
use bencchat.Prelude.{
  ℕ, ◌≤◌, Bool, true, false, ◌&&◌, not, Option, none, some, List, [], ◌∷◌, ◌≡◌, refl, sym, ap,
  subst, arith, length, ◌==◌,
}
use bencchat.Prelude.Bytes.{bytes_eq_refl, Bytes, bytes_eq, bytes_eq→eq}
use bencchat.App.KeyDir.{
  Identity, Memo, SignedManifest, KeyDir, max_int64, entry_of, pin_peer, devices_from,
  signature_verifies, on_self_manifest, leave, well_signed,
}
use bencchat.Prelude.Assoc.{lookup, insert}
use bencchat.Text.Hex
use bencchat.E2ee.Crypto.{Crypto}
use bencchat.E2ee.Devices.{Device}
use bencchat.State.ScreenName.{normalize_screen_name}
use bencchat.Wire.Manifest.{Manifest, decode_manifest}
use bencchat.App.KeyDir.Counter.{peer_pin, entry_of-insert}

pub no_memo :
    (who : Bytes) (memo : Memo) (m : List (Bytes × Memo)) → m ≡ [] → lookup who m ≡ some memo → ⊥
unfolding lookup
no_memo who memo [] e held = ground (arith, held)
no_memo who memo (p ∷ m) e held = ground (arith, e)

pub no_devices :
    (devices : List Device) (st st' : KeyDir)
    → ◌≡◌ {A = Option (List Device) × KeyDir} (some devices, st) (none, st')
    → ⊥
no_devices devices st st' e = ground (arith, ap (λ (r : Option (List Device) × KeyDir). r.0) e)

pub same_pair :
    (devices found : List Device) (st st' : KeyDir)
    → ◌≡◌ {A = Option (List Device) × KeyDir} (some devices, st) (some found, st')
    → (devices ≡ found) × (st ≡ st')
same_pair devices found st st' e = (
  ground (arith, ap (λ (r : Option (List Device) × KeyDir). r.0) e),
  ap (λ (r : Option (List Device) × KeyDir). r.1) e,
)

module _ (c : Crypto) (to_lower : Bytes → Bytes) where
  -- A manifest with this hash, signed over exactly its bytes by the identity key inside it, for this
  -- account and with a counter in range, names these devices.
  pub record IsSigned (who sum : Bytes) (devices : List Device) : Type 0 where
    pub bytes : Bytes
    pub signature : Bytes
    pub manifest : Manifest
    pub hash : c.sha256 bytes ≡ sum
    pub decoded : decode_manifest bytes ≡ some manifest
    pub verified : signature_verifies c manifest.identity.key bytes signature ≡ true
    pub account : normalize_screen_name to_lower manifest.screen_name ≡ who
    pub counter_low : 1 ≤ manifest.counter
    pub counter_high : manifest.counter ≤ max_int64
    pub named : devices ≡ devices_from manifest.devices

  abbrev pub is_mine : Bytes → KeyDir → Bool
  is_mine who st =
      not (length st.self == 0) && bytes_eq (normalize_screen_name to_lower st.self) who

  -- The memos were verified, and a peer's is of the manifest that is pinned.
  pub record IsHonest (st : KeyDir) : Type 0 where
    pub memo_signed :
        (who : Bytes) (memo : Memo)
        → lookup who st.manifest_seen ≡ some memo
        → IsSigned who memo.sum memo.devices
    pub memo_pinned :
        (who : Bytes) (memo : Memo)
        → lookup who st.manifest_seen ≡ some memo
        → is_mine who st ≡ false
        → (peer_pin who st).digest ≡ Hex.encode memo.sum

  pub well_signed-IsSigned :
      (sm : SignedManifest) (who : Bytes) (m : Manifest)
      → decode_manifest sm.manifest ≡ some m
      → well_signed c to_lower sm who m ≡ true
      → IsSigned who (c.sha256 sm.manifest) (devices_from m.devices)
  unfolding well_signed
  well_signed-IsSigned sm who m read good = record {
    bytes = sm.manifest;
    signature = sm.signature;
    manifest = m;
    hash = refl;
    decoded = read;
    verified = ground (arith, good);
    account = bytes_eq→eq (normalize_screen_name to_lower m.screen_name) who (ground (arith, good));
    counter_low = ground (arith, good);
    counter_high = ground (arith, good);
    named = refl;
  }

  -- What a state keeps of memos and pins after a manifest was taken.
  pub record IsTaken (who bytes : Bytes) (devices : List Device) (st st' : KeyDir) : Type 0 where
    pub self_kept : st'.self ≡ st.self
    pub memos :
        st'.manifest_seen
        ≡ insert who (record { sum = c.sha256 bytes; devices = devices }) st.manifest_seen
    pub others : (j : Bytes) → bytes_eq who j ≡ false → peer_pin j st' ≡ peer_pin j st
    pub pinned : is_mine who st ≡ false → (peer_pin who st').digest ≡ Hex.encode (c.sha256 bytes)

  pub on_self_manifest_keeps :
      (encoded : Bytes) (issued : ℕ) (devices : List Device) (st : KeyDir)
      → ((on_self_manifest encoded issued devices st).self ≡ st.self)
        × ((on_self_manifest encoded issued devices st).manifest_seen ≡ st.manifest_seen)
        × ((on_self_manifest encoded issued devices st).trust ≡ st.trust)
  unfolding on_self_manifest leave
  on_self_manifest_keeps encoded issued devices st = (ground arith, ground arith, ground arith)

  -- What the counter rule leaves in place.
  pub record IsPinned (who : Bytes) (id : Identity) (st st' : KeyDir) : Type 0 where
    pub self_kept : st'.self ≡ st.self
    pub memos_kept : st'.manifest_seen ≡ st.manifest_seen
    pub others_kept : (j : Bytes) → bytes_eq who j ≡ false → peer_pin j st' ≡ peer_pin j st
    pub digest_pinned : is_mine who st ≡ false → (peer_pin who st').digest ≡ id.digest

  pub pin_peer-IsPinned :
      (who display : Bytes) (id : Identity) (st : KeyDir)
      → IsPinned who id st (pin_peer who display id st)
  unfolding pin_peer
  pin_peer-IsPinned who display id st = record {
    self_kept = refl;
    memos_kept = refl;
    others_kept = λ j other. ground (
      arith,
      other,
      entry_of-insert who j (record (entry_of who st.trust) { identity = id }) st.trust,
    );
    digest_pinned = λ _. ground (
      arith,
      bytes_eq_refl who,
      entry_of-insert who who (record (entry_of who st.trust) { identity = id }) st.trust,
    );
  }

  pub own_pins :
      (who : Bytes) (id : Identity) (st : KeyDir) (r : Bool × KeyDir) (st' : KeyDir)
      → r ≡ (true, st')
      → st'.self ≡ st.self
      → st'.manifest_seen ≡ st.manifest_seen
      → st'.trust ≡ st.trust
      → is_mine who st ≡ true
      → (r.0 ≡ true) × IsPinned who id st r.1
  own_pins who id st r st' e kept memos trust mine = (
    ap (λ (p : Bool × KeyDir). p.0) e,
    subst (λ t. IsPinned who id st t) (sym (ap (λ (p : Bool × KeyDir). p.1) e))
        (record {
          self_kept = kept;
          memos_kept = memos;
          others_kept = λ j other. ap (λ t. (entry_of j t).identity) trust;
          digest_pinned = λ other. ground (arith, mine, other);
        }),
  )
