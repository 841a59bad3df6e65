-- ===== src/App/KeyDir/Judged.antt =====
-- app_keydir.go: the two outcomes of a device list that passed its own tests.
use bencchat.App.KeyDir.Pinned.{
  IsTaken, on_self_manifest_keeps, IsPinned, pin_peer-IsPinned, own_pins,
}
use bencchat.Prelude.{
  ℕ, Bool, true, false, ◌&&◌, not, none, some, List, ◌≡◌, refl, sym, ◌∙◌, ap, subst, ◌⊎◌, inl, inr,
  arith, length, ◌==◌, if◌then◌else◌, Bool-cases,
}
use bencchat.Prelude.Bytes.{Bytes, bytes_eq}
use bencchat.App.KeyDir.{
  Ruling, Identity, SignedManifest, KeyDir, entry_of, refuse, keep, pin, ruled, self_ruling,
  peer_refuses, pin_peer, devices_from, on_self_manifest, is_self, accept_counter, identity_of,
  remember, believe,
}
use bencchat.Prelude.Assoc.{insert}
use bencchat.Text.Hex
use bencchat.E2ee.Crypto.{Crypto}
use bencchat.E2ee.Devices.{Device}
use bencchat.State.ScreenName.{normalize_screen_name}
use bencchat.Wire.Manifest.{Manifest}
use bencchat.App.KeyDir.Counter.{peer_pin}

module _ (c : Crypto) (to_lower : Bytes → Bytes) where
  pub ruled_cases :
      (r : Ruling) (id : Identity) (st : KeyDir)
      → (ruled r id st ≡ (false, st))
        ⊎ ((ruled r id st ≡ (true, st))
            ⊎ (ruled r id st ≡ (true, record st { self_identity = id })))
  unfolding ruled
  ruled_cases refuse id st = inl refl
  ruled_cases keep id st = inr (inl refl)
  ruled_cases pin id st = inr (inr refl)

  -- The state after the counter rule has accepted.
  pub accepted_pins :
      (who display : Bytes) (id : Identity) (st : KeyDir)
      → normalize_screen_name to_lower display ≡ who
      → (accept_counter c to_lower who display id st ≡ (false, st))
        ⊎ (((accept_counter c to_lower who display id st).0 ≡ true)
            × IsPinned c to_lower who id st (accept_counter c to_lower who display id st).1)
  unfolding accept_counter is_self
  accepted_pins who display id st name = elim (Bool-cases (is_self c to_lower display st)) [
    | inl mine ↦
        let same : accept_counter c to_lower who display id st
            ≡ ruled (self_ruling st.self_identity id.key id.counter id.digest) id st =
          ground (arith, mine) in
        elim (ruled_cases (self_ruling st.self_identity id.key id.counter id.digest) id st) [
          | inl e ↦ inl (same ∙ e)
          | inr (inl e) ↦ inr (
              own_pins c to_lower who id st _ st (same ∙ e) refl refl refl (
                subst
                  (λ w.
                    (not (length st.self == 0)
                      && bytes_eq (normalize_screen_name to_lower st.self) w)
                    ≡ true)
                  name mine))
          | inr (inr e) ↦ inr (
              own_pins c to_lower who id st _ (record st { self_identity = id }) (same ∙ e) refl
                refl refl
                (subst
                  (λ w.
                    (not (length st.self == 0)
                      && bytes_eq (normalize_screen_name to_lower st.self) w)
                    ≡ true)
                  name mine))
        ]
    | inr other ↦ elim (Bool-cases (peer_refuses (peer_pin who st) id.key id.counter id.digest)) [
      | inl stale ↦ inl (ground (arith, other, stale))
      | inr fresh ↦
          let e : accept_counter c to_lower who display id st ≡ (true, pin_peer who display id st) =
            ground (arith, other, fresh) in
          inr (
            ap (λ (r : Bool × KeyDir). r.0) e,
            subst (λ t. IsPinned c to_lower who id st t) (sym (ap (λ (r : Bool × KeyDir). r.1) e))
                (pin_peer-IsPinned c to_lower who display id st),
          )
    ]
  ]

  pub own_kept :
      (mine : Bool) (encoded : Bytes) (issued : ℕ) (devices : List Device) (st : KeyDir)
      → let st' = (if mine then on_self_manifest encoded issued devices st else st) in
        (st'.self ≡ st.self) × (st'.manifest_seen ≡ st.manifest_seen) × (st'.trust ≡ st.trust)
  own_kept true encoded issued devices st =
      on_self_manifest_keeps c to_lower encoded issued devices st
  own_kept false encoded issued devices st = (refl, refl, refl)

  pub pinned-IsTaken :
      (who bytes : Bytes) (devices : List Device) (id : Identity) (st st1 st3 : KeyDir)
      → id.digest ≡ Hex.encode (c.sha256 bytes)
      → IsPinned c to_lower who id st st1
      → st3.self ≡ st1.self
      → st3.manifest_seen
        ≡ insert who (record { sum = c.sha256 bytes; devices = devices }) st1.manifest_seen
      → st3.trust ≡ st1.trust
      → IsTaken c to_lower who bytes devices st st3
  pinned-IsTaken who bytes devices id st st1 st3 hash kept s m t = record {
    self_kept = s ∙ kept.self_kept;
    memos =
        m ∙ ap (insert who (record { sum = c.sha256 bytes; devices = devices })) kept.memos_kept;
    others = λ j other. ap (λ w. (entry_of j w).identity) t ∙ kept.others_kept j other;
    pinned =
        λ other. ap (λ w. (entry_of who w).identity.digest) t ∙ kept.digest_pinned other ∙ hash;
  }

  -- Believing a manifest: refused with nothing changed, or taken.
  pub believe_cases :
      (sm : SignedManifest) (who : Bytes) (m : Manifest) (st : KeyDir)
      → normalize_screen_name to_lower sm.screen_name ≡ who
      → (believe c to_lower sm who m st ≡ (none, st))
        ⊎ (((believe c to_lower sm who m st).0 ≡ some (devices_from m.devices))
            × IsTaken c to_lower who sm.manifest
                (devices_from m.devices)
                st
                (believe c to_lower sm who m st).1)
  unfolding believe remember identity_of
  believe_cases sm who m st name =
      let id = identity_of c to_lower sm.manifest m in
      elim (accepted_pins who sm.screen_name id st name) [
        | inl stale ↦ inl (ground (arith, stale))
        | inr (fresh, kept) ↦
            let st1 = (accept_counter c to_lower who sm.screen_name id st).1 in
            let st2 = remember c to_lower who sm.manifest (devices_from m.devices) st1 in
            let (s3, m3, t3) =
              own_kept (is_self c to_lower sm.screen_name st2) id.key m.issued_at
                (devices_from m.devices) st2 in
            let st3 =
              (if is_self c to_lower sm.screen_name st2
                then on_self_manifest id.key m.issued_at (devices_from m.devices) st2
                else st2) in
            let ends : (believe c to_lower sm who m st).1 ≡ st3 = ground (arith, fresh) in
            inr (
              ground (arith, fresh),
              subst (λ t. IsTaken c to_lower who sm.manifest (devices_from m.devices) st t)
                  (sym ends)
                  (pinned-IsTaken who sm.manifest (devices_from m.devices) id st st1 st3 refl kept
                    s3 (m3 ∙ refl) (t3 ∙ refl)),
            )
      ]
