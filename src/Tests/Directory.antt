-- ===== src/Tests/Directory.antt =====
-- Signed device lists at concrete inputs.
use bencchat.Prelude.{◌≡◌, refl, arith, true, false, [], ◌∷◌, ◌++◌, some, none}
use bencchat.Prelude.Bytes.{Bytes, bytes_eq, bytes_eq_refl}
use bencchat.Prelude.Assoc.{lookup, insert}
use bencchat.Text.Ascii.{bytes}
use bencchat.E2ee.Crypto.{SigningKeyPair, IsKeyPair}
use bencchat.E2ee.Devices.{Device}
use bencchat.State.ScreenName.{normalize_screen_name}
use bencchat.Wire.Codec.{marshal, marshal_all, put, unmarshal}
use bencchat.Wire.Codec.Fits.{fits}
use bencchat.Wire.Manifest.{manifest_value, encode_manifest, decode_manifest}
use bencchat.App.KeyDir.{
  is_self, identity_moved, entry_of, same_statement, signature_verifies, devices_from, listed,
  SignedManifest, KeyDir, no_identity, verify_manifest,
}
use bencchat.App.KeyDir.Counter.{verify_all, verify_all-PinsGrow, PinsGrow}
use bencchat.App.KeyDir.Belief.{IsBelieved, verify_manifest-IsBelieved}
use bencchat.App.KeyDir.Publish.{Published, statement, device_entries}
use bencchat.App.KeyDir.Publish.Stored.{IsStatement}
use bencchat.App.KeyDir.Publish.Reread.{restarted, answer, verify_manifest-published}
use bencchat.Tests.Toy.{fill, toy, toy-IsCrypto}

abbrev same_case : Bytes → Bytes
same_case s = s

abbrev identity_pair : SigningKeyPair
identity_pair = record { public_key = fill 32 7; private_key = fill 64 7 }

identity_pair-IsKeyPair : IsKeyPair toy identity_pair
identity_pair-IsKeyPair m = bytes_eq_refl (fill 64 7)

-- Version 2, "bob", counter 3, a time, the identity key, and one device without a signing key.
abbrev manifest : Bytes
manifest =
    0 ∷ 2 ∷ 3 ∷ bytes "bob"
    ++ 0 ∷ 0 ∷ 0 ∷ 0 ∷ 0 ∷ 0 ∷ 0 ∷ 3 ∷ 0 ∷ 0 ∷ 0 ∷ 0 ∷ 0 ∷ 0 ∷ 1 ∷ 0 ∷ []
    ++ 2 ∷ 0 ∷ 32 ∷ fill 32 7
    ++ 0 ∷ 1 ∷ 1 ∷ 0 ∷ 32 ∷ fill 32 9
    ++ 0 ∷ 0 ∷ 0 ∷ 0 ∷ []

abbrev query : SignedManifest
query = record {
  screen_name = bytes "bob";
  present = true;
  manifest = manifest;
  sig_alg = 2;
  signature = fill 64 7;
}

abbrev desk : Device
desk = record { box = fill 32 9; sign = [] }

-- Signed on, with nothing known of anybody.
abbrev start : Bytes → KeyDir
start self = record {
  self = self;
  our_box = fill 32 9;
  self_identity = no_identity;
  trust = [];
  manifest_seen = [];
  e2ee_devices = [];
  manifest_issued_at = 0;
  linked = false;
  remembered = true;
  leaving = false;
  notices = [];
}

verify_all-PinsGrow_example :
    PinsGrow
      (start (bytes "ann"))
      (verify_all toy same_case (query ∷ query ∷ []) (start (bytes "ann")))
unfolding verify_all verify_manifest lookup decode_manifest unmarshal signature_verifies bytes_eq
    normalize_screen_name is_self identity_moved entry_of same_statement insert
verify_all-PinsGrow_example =
    verify_all-PinsGrow toy same_case (query ∷ query ∷ []) (start (bytes "ann")) refl

verify_manifest-IsBelieved_example :
    IsBelieved toy same_case query
      (desk ∷ [])
      (verify_manifest toy same_case query (verify_all toy same_case [] (start (bytes "ann")))).1
unfolding verify_all verify_manifest lookup decode_manifest unmarshal signature_verifies bytes_eq
    normalize_screen_name is_self identity_moved entry_of same_statement devices_from
verify_manifest-IsBelieved_example =
    verify_manifest-IsBelieved toy same_case [] query (start (bytes "ann"))
      (verify_manifest toy same_case query (verify_all toy same_case [] (start (bytes "ann")))).1
      (desk ∷ []) refl refl

abbrev published : Published
published = record { manifest = manifest; signature = fill 64 7; counter = 3; issued_at = 256 }

abbrev us : KeyDir
us = start (bytes "bob")

published-IsStatement :
    IsStatement toy same_case (λ _ _ _. none) (λ _. 0) identity_pair (desk ∷ []) 3 us published
unfolding encode_manifest statement marshal put
published-IsStatement = record {
  encoded = refl;
  size = omega arith;
  signed = refl;
  key_size = refl;
  not_empty = omega arith;
  at = refl;
}

verify_manifest-published_example :
    let st =
      restarted toy same_case toy-IsCrypto identity_pair identity_pair-IsKeyPair refl
        (desk ∷ [])
        published
        us in
    let a =
      answer toy same_case toy-IsCrypto identity_pair identity_pair-IsKeyPair refl
        (desk ∷ [])
        published
        us in
    (st' : KeyDir) × (verify_manifest toy same_case a st ≡ (some (desk ∷ []), st'))
    × (st'.self_identity ≡ st.self_identity)
    × (st'.linked ≡ true)
    × (st'.leaving ≡ false)
    × (st'.notices ≡ [])
unfolding devices_from device_entries marshal_all put bytes_eq
verify_manifest-published_example =
    verify_manifest-published toy same_case toy-IsCrypto identity_pair identity_pair-IsKeyPair refl
      (desk ∷ []) published us (omega arith) published-IsStatement (omega arith) (omega arith)
      (unfold fits statement manifest_value in refl) (unfold listed in refl)
