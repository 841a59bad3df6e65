-- ===== src/App/KeyDir/Belief.antt =====
-- What stands behind a device list that is believed.
use bencchat.App.KeyDir.Pinned.{
  no_memo, no_devices, same_pair, IsSigned, is_mine, IsHonest, well_signed-IsSigned, IsTaken,
}
use bencchat.App.KeyDir.Judged.{believe_cases}
use bencchat.Prelude.{
  Option-cases, true, false, ◌&&◌, not, some, List, [], ◌∷◌, ◌≡◌, refl, sym, ◌∙◌, ap, subst, ◌⊎◌,
  inl, inr, arith, length, ◌==◌, Bool-cases,
}
use bencchat.Prelude.Bytes.{Bytes, bytes_eq, bytes_eq→eq}
use bencchat.App.KeyDir.{
  Identity, Memo, SignedManifest, KeyDir, devices_from, well_signed, believe, memoized,
  verify_manifest,
}
use bencchat.Prelude.Assoc.{lookup, insert, lookup-insert}
use bencchat.Text.Hex
use bencchat.E2ee.Crypto.{Crypto}
use bencchat.E2ee.Devices.{Device}
use bencchat.State.ScreenName.{normalize_screen_name}
use bencchat.Wire.Manifest.{Manifest, decode_manifest}
use bencchat.App.KeyDir.Outcomes.{verify_manifest_cases}
use bencchat.App.KeyDir.Counter.{peer_pin, verify_all}

module _ (c : Crypto) (to_lower : Bytes → Bytes) where
  memo_of-insert :
      (who j : Bytes) (memo old : Memo) (m : List (Bytes × Memo))
      → lookup j (insert who memo m) ≡ some old
      → ((bytes_eq who j ≡ true) × (old ≡ memo))
        ⊎ ((bytes_eq who j ≡ false) × (lookup j m ≡ some old))
  memo_of-insert who j memo old m e = elim (Bool-cases (bytes_eq who j)) [
    | inl here ↦ inl (here, ground (arith, e, here, lookup-insert who j memo m))
    | inr there ↦ inr (there, ground (arith, e, there, lookup-insert who j memo m))
  ]

  still_other :
      (j : Bytes) (st st' : KeyDir)
      → st'.self ≡ st.self
      → is_mine c to_lower j st' ≡ false
      → is_mine c to_lower j st ≡ false
  still_other j st st' kept other =
      subst (λ s. (not (length s == 0) && bytes_eq (normalize_screen_name to_lower s) j) ≡ false)
        kept other

  taken-IsHonest :
      (who bytes : Bytes) (devices : List Device) (st st' : KeyDir)
      → IsSigned c to_lower who (c.sha256 bytes) devices
      → IsTaken c to_lower who bytes devices st st'
      → IsHonest c to_lower st
      → IsHonest c to_lower st'
  taken-IsHonest who bytes devices st st' signed t h =
      let memo : Memo = record { sum = c.sha256 bytes; devices = devices } in
      record {
        memo_signed = λ j old e.
            elim (memo_of-insert who j memo old st.manifest_seen
              (ap (lookup j) (sym t.memos) ∙ e)) [
                | inl (here, new) ↦
                    subst (λ (o : Memo). IsSigned c to_lower j o.sum o.devices) (sym new)
                      (subst (λ k. IsSigned c to_lower k (c.sha256 bytes) devices)
                        (bytes_eq→eq who j here) signed)
                | inr (there, kept) ↦ h.memo_signed j old kept
              ];
        memo_pinned = λ j old e other.
            elim (memo_of-insert who j memo old st.manifest_seen
              (ap (lookup j) (sym t.memos) ∙ e)) [
                | inl (here, new) ↦
                    let same : who ≡ j = bytes_eq→eq who j here in
                    let outside : is_mine c to_lower who st ≡ false =
                      subst (λ k. is_mine c to_lower k st ≡ false) (sym same)
                        (still_other j st st' t.self_kept other) in
                    subst (λ k. (peer_pin k st').digest ≡ Hex.encode old.sum) same
                      (t.pinned outside ∙ ap (λ (o : Memo). Hex.encode o.sum) (sym new))
                | inr (there, kept) ↦
                    ap (λ (p : Identity). p.digest) (t.others j there)
                    ∙ h.memo_pinned j old kept (still_other j st st' t.self_kept other)
              ];
      }

  -- What a call of verifyManifest on an honest state gives.
  verified-IsHonest :
      (sm : SignedManifest) (st : KeyDir)
      → IsHonest c to_lower st
      → IsHonest c to_lower (verify_manifest c to_lower sm st).1
  verified-IsHonest sm st h = elim (verify_manifest_cases c to_lower sm st) [
    | inl e ↦ subst (λ r. IsHonest c to_lower r.1) (sym e) h
    | inr (inl (devices, again, e)) ↦ subst (λ r. IsHonest c to_lower r.1) (sym e) h
    | inr (inr (m, read, good, e)) ↦
        let who = normalize_screen_name to_lower sm.screen_name in
        elim (believe_cases c to_lower sm who m st refl) [
          | inl stale ↦ subst (λ r. IsHonest c to_lower r.1) (sym (e ∙ stale)) h
          | inr (fresh, taken) ↦
              subst (λ r. IsHonest c to_lower r.1) (sym e)
                (taken-IsHonest who sm.manifest (devices_from m.devices) st
                  (believe c to_lower sm who m st).1
                  (well_signed-IsSigned c to_lower sm who m read good) taken h)
        ]
  ]

  verify_all-IsHonest :
      (sms : List SignedManifest) (st : KeyDir)
      → IsHonest c to_lower st
      → IsHonest c to_lower (verify_all c to_lower sms st)
  unfolding verify_all
  verify_all-IsHonest [] st h = h
  verify_all-IsHonest (sm ∷ sms) st h =
      verify_all-IsHonest sms (verify_manifest c to_lower sm st).1 (verified-IsHonest sm st h)

  memoized-memo :
      (who bytes : Bytes) (devices : List Device) (st : KeyDir)
      → memoized c to_lower who bytes st ≡ some devices
      → lookup who st.manifest_seen ≡ some (record { sum = c.sha256 bytes; devices = devices })
  unfolding memoized
  memoized-memo who bytes devices st e = elim (Option-cases (lookup who st.manifest_seen)) [
    | inl nothing ↦ ground (arith, e, nothing)
    | inr (memo, held) ↦ elim (Bool-cases (bytes_eq memo.sum (c.sha256 bytes))) [
      | inl same ↦ ground (arith, e, held, same, bytes_eq→eq memo.sum (c.sha256 bytes) same)
      | inr other ↦ ground (arith, e, held, other)
    ]
  ]

  -- Nothing remembered yet, as after a start.
  fresh-IsHonest : (st : KeyDir) → st.manifest_seen ≡ [] → IsHonest c to_lower st
  fresh-IsHonest st e = record {
    memo_signed = λ who memo held. absurd (no_memo who memo st.manifest_seen e held);
    memo_pinned = λ who memo held other. absurd (no_memo who memo st.manifest_seen e held);
  }

  -- What is believed was signed and is pinned.
  abbrev pub IsBelieved : SignedManifest → List Device → KeyDir → Type 0
  IsBelieved sm devices st' =
      let who = normalize_screen_name to_lower sm.screen_name in
      IsSigned c to_lower who (c.sha256 sm.manifest) devices
      × (is_mine c to_lower who st' ≡ false
          → (peer_pin who st').digest ≡ Hex.encode (c.sha256 sm.manifest))

  repeated-IsBelieved :
      (sm : SignedManifest) (devices : List Device) (st : KeyDir)
      → IsHonest c to_lower st
      → memoized c to_lower (normalize_screen_name to_lower sm.screen_name) sm.manifest st
        ≡ some devices
      → IsBelieved sm devices st
  repeated-IsBelieved sm devices st h again =
      let who = normalize_screen_name to_lower sm.screen_name in
      let memo : Memo = record { sum = c.sha256 sm.manifest; devices = devices } in
      let held : lookup who st.manifest_seen ≡ some memo =
        memoized-memo who sm.manifest devices st again in
      (h.memo_signed who memo held, h.memo_pinned who memo held)

  judged-IsBelieved :
      (sm : SignedManifest) (m : Manifest) (st st' : KeyDir) (devices : List Device)
      → decode_manifest sm.manifest ≡ some m
      → well_signed c to_lower sm (normalize_screen_name to_lower sm.screen_name) m ≡ true
      → (some devices, st')
        ≡ believe c to_lower sm (normalize_screen_name to_lower sm.screen_name) m st
      → IsBelieved sm devices st'
  judged-IsBelieved sm m st st' devices read good e =
      let who = normalize_screen_name to_lower sm.screen_name in
      let st2 = (believe c to_lower sm who m st).1 in
      elim (believe_cases c to_lower sm who m st refl) [
        | inl stale ↦ absurd (no_devices devices st' st (e ∙ stale))
        | inr (fresh, taken) ↦
            let (d, t) =
              same_pair devices (devices_from m.devices) st' st2 (e ∙ ap (λ o. (o, st2)) fresh) in
            subst (λ u. IsBelieved sm devices u) (sym t)
              (subst (λ ds. IsBelieved sm ds st2) (sym d)
                (
                  well_signed-IsSigned c to_lower sm who m read good,
                  λ other. taken.pinned (still_other who st st2 taken.self_kept other),
                ))
      ]

  -- After a start with nothing remembered, and after any run of device lists: devices that are believed
  -- stand in a manifest with the hash of the bytes that came, signed over exactly its bytes by the
  -- identity key inside it, for the account that was asked about and with a counter in range; and for
  -- a peer the identity pin then holds that hash.
  pub verify_manifest-IsBelieved :
      (sms : List SignedManifest) (sm : SignedManifest) (st st' : KeyDir) (devices : List Device)
      → st.manifest_seen ≡ []
      → verify_manifest c to_lower sm (verify_all c to_lower sms st) ≡ (some devices, st')
      → IsBelieved sm devices st'
  verify_manifest-IsBelieved sms sm st st' devices start e =
      let st1 = verify_all c to_lower sms st in
      let h : IsHonest c to_lower st1 = verify_all-IsHonest sms st (fresh-IsHonest st start) in
      elim (verify_manifest_cases c to_lower sm st1) [
        | inl ignored ↦ absurd (no_devices devices st' st1 (sym e ∙ ignored))
        | inr (inl (found, again, same)) ↦
            let (d, t) = same_pair devices found st' st1 (sym e ∙ same) in
            subst (λ u. IsBelieved sm devices u) (sym t)
              (subst (λ ds. IsBelieved sm ds st1) (sym d)
                (repeated-IsBelieved sm found st1 h again))
        | inr (inr (m, read, good, same)) ↦
            judged-IsBelieved sm m st1 st' devices read good (sym e ∙ same)
      ]
