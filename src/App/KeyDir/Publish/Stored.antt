-- ===== src/App/KeyDir/Publish/Stored.antt =====
-- What publishing leaves behind.
use bencchat.App.KeyDir.Publish.{
  too_many_devices, not_signed_on, identity_pinned, no_key_dir, raced, PublishError, Reply, Outcome,
  rejected, stored, pinned, Published, max_manifest_len, private_key_len, statement, build_manifest,
  next_counter, sign_manifest, record_published, attempt, climb, publish_from, publish_manifest,
}
use bencchat.Prelude.{
  subst, ◌≢◌, ℕ, zero, suc, ◌≤◌, ◌<◌, Bool, Option, some, List, ◌≡◌, refl, sym, ◌⊎◌, inl, inr, ltb,
  ◌==◌, length, arith, Bool-cases, Option-cases,
}
use bencchat.Prelude.Bytes.{Bytes}
use bencchat.Prelude.Outcome.{Result, ok, err, Result-cases}
use bencchat.E2ee.Crypto.{Crypto, SigningKeyPair}
use bencchat.E2ee.Devices.{Device, max_devices}
use bencchat.Wire.Manifest.{encode_manifest}
use bencchat.App.KeyDir.{KeyDir, max_int64}

outcome_cases : (o : Outcome) → (o ≡ pinned) ⊎ ((o ≡ stored) ⊎ (o ≡ rejected))
outcome_cases rejected = inr (inr refl)
outcome_cases stored = inr (inl refl)
outcome_cases pinned = inl refl

module _ (c : Crypto) (to_lower : Bytes → Bytes) (server : ℕ → Bytes → Bytes → Option Reply)
    (clock : ℕ → ℕ) where
  -- What was signed and sent in an attempt at `counter`.
  pub record IsStatement (kp : SigningKeyPair) (devices : List Device) (counter : ℕ) (st : KeyDir)
      (p : Published) : Type 0 where
    pub encoded :
        encode_manifest (statement st.self kp.public_key counter p.issued_at devices)
        ≡ some p.manifest
    pub size : length p.manifest ≤ max_manifest_len
    pub signed : p.signature ≡ c.sign kp.private_key p.manifest
    pub key_size : length kp.private_key ≡ private_key_len
    pub not_empty : length p.manifest ≢ 0
    pub at : p.counter ≡ counter

  build_manifest_sound :
      (name identity : Bytes) (counter now : ℕ) (devices : List Device) (b : Bytes)
      → build_manifest name identity counter now devices ≡ some b
      → (encode_manifest (statement name identity counter now devices) ≡ some b)
        × (length b ≤ max_manifest_len)
  unfolding build_manifest
  build_manifest_sound name identity counter now devices b e =
      elim (Option-cases (encode_manifest (statement name identity counter now devices))) [
        | inl bad ↦ absurd (ground (arith, e, bad))
        | inr (b', good) ↦ (ground (arith, e, good), ground (arith, e, good))
      ]

  sent-IsStatement :
      (left : ℕ) (kp : SigningKeyPair) (devices : List Device) (counter : ℕ) (st : KeyDir)
      (b sig : Bytes)
      → build_manifest st.self kp.public_key counter (clock left) devices ≡ some b
      → sign_manifest c to_lower kp b ≡ some sig
      → IsStatement kp devices counter st
          (record { manifest = b; signature = sig; counter = counter; issued_at = clock left })
  unfolding sign_manifest
  sent-IsStatement left kp devices counter st b sig built sealed =
      let (good, small) =
        build_manifest_sound st.self kp.public_key counter (clock left) devices b built in
      record {
        encoded = good;
        size = small;
        signed = ground (arith, sealed);
        key_size = ground (arith, sealed);
        not_empty = ground (arith, sealed);
        at = refl;
      }

  attempt-IsStatement :
      (left : ℕ) (kp : SigningKeyPair) (devices : List Device) (counter : ℕ) (st : KeyDir)
      (p : Published) (reply : Reply)
      → attempt c to_lower server clock left kp devices counter st ≡ ok (p, reply)
      → IsStatement kp devices counter st p
  unfolding attempt sign_manifest
  attempt-IsStatement left kp devices counter st p reply e =
      elim (Option-cases (build_manifest st.self kp.public_key counter (clock left) devices)) [
        | inl bad ↦ absurd (ground (arith, e, bad))
        | inr (b, built) ↦ elim (Option-cases (sign_manifest c to_lower kp b)) [
          | inl bad ↦ absurd (ground (arith, e, built, bad))
          | inr (sig, sealed) ↦ elim (Option-cases (server left b sig)) [
            | inl bad ↦ absurd (ground (arith, e, built, sealed, bad))
            | inr (answer, given) ↦
                let what : p ≡ record {
                  manifest = b;
                  signature = sig;
                  counter = counter;
                  issued_at = clock left;
                } =
                  ground (arith, e, built, sealed, given) in
                subst (λ q. IsStatement kp devices counter st q) (sym what)
                  (sent-IsStatement left kp devices counter st b sig built sealed)
          ]
        ]
      ]

  -- A stored statement is above every counter in `low`, and in the server's range.
  abbrev Ends :
      ℕ → SigningKeyPair → List Device → KeyDir → Result PublishError Published × KeyDir → Type 0
  Ends low kp devices st r =
      ((e : PublishError) × (r ≡ (err e, st)))
      ⊎ ((p : Published) × (r ≡ (ok p, record_published c to_lower kp devices p st))
          × IsStatement kp devices p.counter st p
          × (low < p.counter)
          × (p.counter ≤ max_int64))

  climb_lem :
      (counter server_counter higher : ℕ)
      → climb c to_lower server clock counter server_counter ≡ ok higher
      → (counter < higher) × (higher ≤ max_int64)
  unfolding climb
  climb_lem counter server_counter higher e = (ground (arith, e), ground (arith, e))

  publish_from-Ends :
      (left low counter : ℕ) (kp : SigningKeyPair) (devices : List Device) (st : KeyDir)
      → low < counter
      → counter ≤ max_int64
      → Ends low kp devices st (publish_from c to_lower server clock left kp devices counter st)
  unfolding publish_from
  publish_from-Ends zero low counter kp devices st above within = inl (raced, refl)
  publish_from-Ends (suc left) low counter kp devices st above within =
      elim (Result-cases (attempt c to_lower server clock left kp devices counter st)) [
        | inl (e, bad) ↦ inl (e, ground (arith, bad))
        | inr ((p, reply), sent) ↦
            let what = attempt-IsStatement left kp devices counter st p reply sent in
            elim (outcome_cases reply.outcome) [
              | inl owned ↦ inl (identity_pinned, ground (arith, sent, owned))
              | inr (inl taken) ↦ inr (
                p,
                ground (arith, sent, taken),
                subst (λ k. IsStatement kp devices k st p) (sym what.at) what,
                omega (arith, what.at),
                omega (arith, what.at),
              )
              | inr (inr raced_) ↦
                  elim (Result-cases (climb c to_lower server clock counter reply.counter)) [
                    | inl (e, bad) ↦ inl (e, ground (arith, sent, raced_, bad))
                    | inr (higher, up) ↦
                        let (more, fits_) = climb_lem counter reply.counter higher up in
                        let again : publish_from c to_lower server clock (suc left) kp devices
                              counter st
                            ≡ publish_from c to_lower server clock left kp devices higher st =
                          ground (arith, sent, raced_, up) in
                        subst (λ r. Ends low kp devices st r) (sym again)
                          (publish_from-Ends left low higher kp devices st (omega arith) fits_)
                  ]
            ]
      ]

  -- Publishing ends in one of two ways. It fails, and nothing has changed. Or a statement of exactly these
  -- devices, encoded and signed with the account's key, was stored: its counter is above the one that
  -- was pinned and within the range of the server, and the pin, the memo and the device set now are
  -- this statement's. (The pinned counter is below 2^63 - 1.)
  pub publish_manifest_cases :
      (supported : Bool) (kp : SigningKeyPair) (devices : List Device) (st : KeyDir)
      → st.self_identity.counter < max_int64
      → let r = publish_manifest c to_lower server clock supported kp devices st in
        ((e : PublishError) × (r ≡ (err e, st)))
        ⊎ ((p : Published) × (r ≡ (ok p, record_published c to_lower kp devices p st))
            × IsStatement kp devices p.counter st p
            × (st.self_identity.counter < p.counter)
            × (p.counter ≤ max_int64))
  unfolding publish_manifest next_counter
  publish_manifest_cases supported kp devices st room = elim (Bool-cases supported) [
    | inr missing ↦ inl (no_key_dir, ground (arith, missing))
    | inl there ↦ elim (Bool-cases (length st.self == 0)) [
      | inl off ↦ inl (not_signed_on, ground (arith, there, off))
      | inr signed_on ↦ elim (Bool-cases (ltb max_devices (length devices))) [
        | inl many ↦ inl (too_many_devices, ground (arith, there, signed_on, many))
        | inr few ↦
            let runs : publish_manifest c to_lower server clock supported kp devices st
                ≡ publish_from c to_lower server clock 2 kp devices (next_counter st.self_identity)
                    st =
              ground (arith, there, signed_on, few) in
            subst (λ r. Ends st.self_identity.counter kp devices st r) (sym runs)
              (publish_from-Ends 2 st.self_identity.counter (next_counter st.self_identity) kp
                devices st (ground arith) (ground arith))
      ]
    ]
  ]
