-- ===== src/App/KeyDir/Outcomes.antt =====
-- How verifyManifest can end.
use bencchat.Prelude.{
  true, false, ◌||◌, not, none, some, List, ◌≡◌, ◌⊎◌, inl, inr, arith, length, ◌==◌, Bool-cases,
  Option-cases,
}
use bencchat.Prelude.Bytes.{Bytes}
use bencchat.E2ee.Crypto.{Crypto}
use bencchat.E2ee.Devices.{Device}
use bencchat.State.ScreenName.{normalize_screen_name}
use bencchat.Wire.Manifest.{Manifest, decode_manifest}
use bencchat.App.KeyDir.{
  SignedManifest, KeyDir, alg_ed25519, memoized, well_signed, believe, verify_manifest,
}

module _ (c : Crypto) (to_lower : Bytes → Bytes) (sm : SignedManifest) (st : KeyDir) where
  abbrev pub asked : Bytes
  asked = normalize_screen_name to_lower sm.screen_name

  -- Nothing learned, and nothing changed.
  abbrev pub Ignored : Type 0
  Ignored = verify_manifest c to_lower sm st ≡ (none, st)

  abbrev pub Repeated : Type 0
  Repeated =
      (devices : List Device) × (memoized c to_lower asked sm.manifest st ≡ some devices)
      × (verify_manifest c to_lower sm st ≡ (some devices, st))

  abbrev pub Judged : Type 0
  Judged =
      (m : Manifest) × (decode_manifest sm.manifest ≡ some m)
      × (well_signed c to_lower sm asked m ≡ true)
      × (verify_manifest c to_lower sm st ≡ believe c to_lower sm asked m st)

  decoded_cases :
      (not sm.present || length sm.manifest == 0) ≡ false
      → memoized c to_lower asked sm.manifest st ≡ none
      → (sm.sig_alg == alg_ed25519) ≡ true
      → Ignored ⊎ (Repeated ⊎ Judged)
  unfolding verify_manifest
  decoded_cases there new alg = elim (Option-cases (decode_manifest sm.manifest)) [
    | inl bad ↦ inl (ground (arith, there, new, alg, bad))
    | inr (m, read) ↦ elim (Bool-cases (well_signed c to_lower sm asked m)) [
      | inl good ↦ inr (inr (m, read, good, ground (arith, there, new, alg, read, good)))
      | inr bad ↦ inl (ground (arith, there, new, alg, read, bad))
    ]
  ]

  pub verify_manifest_cases : Ignored ⊎ (Repeated ⊎ Judged)
  unfolding verify_manifest
  verify_manifest_cases = elim (Bool-cases (not sm.present || length sm.manifest == 0)) [
    | inl missing ↦ inl (ground (arith, missing))
    | inr there ↦ elim (Option-cases (memoized c to_lower asked sm.manifest st)) [
      | inr (devices, again) ↦ inr (inl (devices, again, ground (arith, there, again)))
      | inl new ↦ elim (Bool-cases (sm.sig_alg == alg_ed25519)) [
        | inr alg ↦ inl (ground (arith, there, new, alg))
        | inl alg ↦ decoded_cases there new alg
      ]
    ]
  ]
