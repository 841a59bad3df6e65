-- ===== src/App/KeyDir/Counter.antt =====
-- The rollback defence: what a run of signed device lists can do to the pinned identities.
use bencchat.App.KeyDir.Outcomes.{verify_manifest_cases}
use bencchat.App.KeyDir.{
  normalize_screen_name, devices_from, identity_of, Manifest, Identity, Entry, SignedManifest,
  Notice, identity_changed, identity_replaced, device_removed, KeyDir, entry_of, same_statement,
  Ruling, refuse, keep, pin, self_ruling, ruled, identity_moved, peer_refuses, pin_peer, leave,
  on_self_manifest, is_self, accept_counter, believe, remember, verify_manifest,
}
use bencchat.Prelude.{
  suc, ℕ, ◌≤◌, ◌<◌, Bool, true, false, List, [], ◌∷◌, ◌≡◌, refl, sym, ◌∙◌, subst, ◌⊎◌, inl, inr,
  arith, length, if◌then◌else◌, ◌==◌, Bool-cases,
}
use bencchat.Prelude.Bytes.{Bytes, bytes_eq, bytes_eq→eq}
use bencchat.Prelude.Assoc.{insert, lookup-insert}
use bencchat.E2ee.Crypto.{Crypto}
use bencchat.E2ee.Devices.{Device}

-- The pin of an account.
abbrev pub peer_pin : Bytes → KeyDir → Identity
peer_pin who st = (entry_of who st.trust).identity

-- The warnings about an account's identity that have been shown.
abbrev pub warnings_in : List Notice → ℕ
warnings_in [] = 0
warnings_in (identity_changed _ ∷ ns) = suc (warnings_in ns)
warnings_in (n ∷ ns) = warnings_in ns

abbrev pub warnings : KeyDir → ℕ
warnings st = warnings_in st.notices

-- A pin that only moves forward: there was none, or it is the same key's and its counter has not
-- fallen.
abbrev pub Grows : Identity → Identity → Type 0
Grows p q = (p.key ≡ []) ⊎ ((p.key ≡ q.key) × (p.counter ≤ q.counter))

abbrev pub PinsGrow : KeyDir → KeyDir → Type 0
PinsGrow st st' =
    ((who : Bytes) → Grows (peer_pin who st) (peer_pin who st'))
    × Grows st.self_identity st'.self_identity

Grows-refl : (p : Identity) → Grows p p
Grows-refl p = inr (refl, omega arith)

Grows-trans : (p q r : Identity) → Grows p q → Grows q r → Grows p r
Grows-trans p q r (inl e) g = inl e
Grows-trans p q r (inr (k, c)) (inl e) = inl (k ∙ e)
Grows-trans p q r (inr (k, c)) (inr (k', c')) = inr (k ∙ k', omega arith)

-- A warning was added, or none was and the pins moved forward.
abbrev pub Guarded : KeyDir → KeyDir → Type 0
Guarded st st' = (warnings st < warnings st') ⊎ ((warnings st' ≡ warnings st) × PinsGrow st st')

Guarded-refl : (st : KeyDir) → Guarded st st
Guarded-refl st = inr (refl, ((λ who. Grows-refl (peer_pin who st)), Grows-refl st.self_identity))

Guarded-trans : (s t u : KeyDir) → Guarded s t → Guarded t u → Guarded s u
Guarded-trans s t u (inl a) (inl b) = inl (omega arith)
Guarded-trans s t u (inl a) (inr (b, _)) = inl (omega arith)
Guarded-trans s t u (inr (a, _)) (inl b) = inl (omega arith)
Guarded-trans s t u (inr (a, (p, q))) (inr (b, (p', q'))) = inr (
  b ∙ a,
  (
    (λ who. Grows-trans (peer_pin who s) (peer_pin who t) (peer_pin who u) (p who) (p' who)),
    Grows-trans s.self_identity t.self_identity u.self_identity q q',
  ),
)

-- What keeps the pins and the warnings.
Guarded-same :
    (st st' : KeyDir)
    → st'.trust ≡ st.trust
    → st'.self_identity ≡ st.self_identity
    → warnings st' ≡ warnings st
    → Guarded st st'
Guarded-same st st' t i w = inr (
  w,
  (
    (λ who.
        subst (λ m. Grows (peer_pin who st) (entry_of who m).identity) (sym t)
          (Grows-refl (peer_pin who st))),
    subst (λ p. Grows st.self_identity p) (sym i) (Grows-refl st.self_identity),
  ),
)

no_key : (k : Bytes) → (length k == 0) ≡ true → k ≡ []
no_key [] h = refl
no_key (b ∷ bs) h = ground arith

self_ruling-Grows : (p id : Identity) → self_ruling p id.key id.counter id.digest ≡ pin → Grows p id
unfolding self_ruling same_statement
self_ruling-Grows p id e = elim (Bool-cases (length p.key == 0)) [
  | inl none_yet ↦ inl (no_key p.key none_yet)
  | inr held ↦ elim (Bool-cases (bytes_eq p.key id.key)) [
    | inl same ↦ inr (bytes_eq→eq p.key id.key same, ground (arith, e, held, same))
    | inr other ↦ absurd (ground (arith, e, held, other))
  ]
]

not_moved-Grows :
    (p id : Identity)
    → identity_moved p id.key ≡ false
    → peer_refuses p id.key id.counter id.digest ≡ false
    → Grows p id
unfolding identity_moved peer_refuses same_statement
not_moved-Grows p id still e = elim (Bool-cases (length p.key == 0)) [
  | inl none_yet ↦ inl (no_key p.key none_yet)
  | inr held ↦ elim (Bool-cases (bytes_eq p.key id.key)) [
    | inl same ↦ inr (bytes_eq→eq p.key id.key same, ground (arith, e, held, same, still))
    | inr other ↦ absurd (ground (arith, e, held, other, still))
  ]
]

pub entry_of-insert :
    (who j : Bytes) (e : Entry) (m : List (Bytes × Entry))
    → entry_of j (insert who e m) ≡ (if bytes_eq who j then e else entry_of j m)
unfolding entry_of
entry_of-insert who j e m = ground (arith, lookup-insert who j e m)

-- The steps of verifyManifest.
leave_warnings :
    (n : Notice) (st : KeyDir) → warnings_in (n ∷ []) ≡ 0 → warnings (leave n st) ≡ warnings st
unfolding leave
leave_warnings (identity_changed w) st e = absurd (omega arith)
leave_warnings identity_replaced st e = refl
leave_warnings device_removed st e = refl

on_self_manifest-Guarded :
    (encoded : Bytes) (issued : ℕ) (devices : List Device) (st : KeyDir)
    → Guarded st (on_self_manifest encoded issued devices st)
unfolding on_self_manifest leave
on_self_manifest-Guarded encoded issued devices st =
    Guarded-same st (on_self_manifest encoded issued devices st) (ground arith) (ground arith)
      (ground arith)

pinned-Grows :
    (who j : Bytes) (id : Identity) (e : Entry) (st : KeyDir)
    → Grows (peer_pin who st) id
    → Grows (peer_pin j st) (entry_of j (insert who (record e { identity = id }) st.trust)).identity
pinned-Grows who j id e st g =
    rw (entry_of-insert who j (record e { identity = id }) st.trust)
      (elim (Bool-cases (bytes_eq who j)) [
        | inl here ↦ rw here (subst (λ k. Grows (peer_pin k st) id) (bytes_eq→eq who j here) g)
        | inr there ↦ rw there (Grows-refl (peer_pin j st))
      ])

pin_peer-Guarded :
    (who display : Bytes) (id : Identity) (st : KeyDir)
    → peer_refuses (peer_pin who st) id.key id.counter id.digest ≡ false
    → Guarded st (pin_peer who display id st)
unfolding pin_peer
pin_peer-Guarded who display id st e = elim (Bool-cases (identity_moved (peer_pin who st) id.key)) [
  | inl moved ↦ inl (ground (arith, moved))
  | inr still ↦ inr (
    ground (arith, still),
    (
      (λ j.
          pinned-Grows who j id (entry_of who st.trust) st
            (not_moved-Grows (peer_pin who st) id still e)),
      Grows-refl st.self_identity,
    ),
  )
]

ruled-Guarded :
    (r : Ruling) (id : Identity) (st : KeyDir)
    → (r ≡ pin → Grows st.self_identity id)
    → Guarded st (ruled r id st).1
unfolding ruled
ruled-Guarded refuse id st g = Guarded-refl st
ruled-Guarded keep id st g = Guarded-refl st
ruled-Guarded pin id st g = inr (refl, ((λ who. Grows-refl (peer_pin who st)), g refl))

self-Guarded :
    (id : Identity) (st : KeyDir)
    → Guarded st (ruled (self_ruling st.self_identity id.key id.counter id.digest) id st).1
self-Guarded id st =
    ruled-Guarded (self_ruling st.self_identity id.key id.counter id.digest) id st
      (self_ruling-Grows st.self_identity id)

module _ (c : Crypto) (to_lower : Bytes → Bytes) where
  accept_counter-Guarded :
      (who display : Bytes) (id : Identity) (st : KeyDir)
      → Guarded st (accept_counter c to_lower who display id st).1
  unfolding accept_counter
  accept_counter-Guarded who display id st = elim (Bool-cases (is_self c to_lower display st)) [
    | inl mine ↦ rw mine (self-Guarded id st)
    | inr other ↦ elim (Bool-cases (peer_refuses (peer_pin who st) id.key id.counter id.digest)) [
      | inl refused ↦ rw (other, refused) (Guarded-refl st)
      | inr taken ↦ rw (other, taken) (pin_peer-Guarded who display id st taken)
    ]
  ]

  remember-Guarded :
      (who bytes : Bytes) (devices : List Device) (st : KeyDir)
      → Guarded st (remember c to_lower who bytes devices st)
  unfolding remember
  remember-Guarded who bytes devices st =
      Guarded-same st (remember c to_lower who bytes devices st) refl refl refl

  own-Guarded :
      (mine : Bool) (encoded : Bytes) (issued : ℕ) (devices : List Device) (st : KeyDir)
      → Guarded st (if mine then on_self_manifest encoded issued devices st else st)
  own-Guarded true encoded issued devices st = on_self_manifest-Guarded encoded issued devices st
  own-Guarded false encoded issued devices st = Guarded-refl st

  believe-Guarded :
      (sm : SignedManifest) (who : Bytes) (m : Manifest) (st : KeyDir)
      → Guarded st (believe c to_lower sm who m st).1
  unfolding believe
  believe-Guarded sm who m st =
      let id = identity_of c to_lower sm.manifest m in
      let st1 = (accept_counter c to_lower who sm.screen_name id st).1 in
      let st2 = remember c to_lower who sm.manifest (devices_from m.devices) st1 in
      let st3 =
        (if is_self c to_lower sm.screen_name st2
          then on_self_manifest id.key m.issued_at (devices_from m.devices) st2
          else st2) in
      elim (Bool-cases (accept_counter c to_lower who sm.screen_name id st).0) [
        | inr refused ↦ rw refused (accept_counter-Guarded who sm.screen_name id st)
        | inl taken ↦ rw taken (
            Guarded-trans st st1 st3 (accept_counter-Guarded who sm.screen_name id st) (
              Guarded-trans st1 st2 st3
                (remember-Guarded who sm.manifest (devices_from m.devices) st1)
                (own-Guarded (is_self c to_lower sm.screen_name st2) id.key m.issued_at
                  (devices_from m.devices) st2)))
      ]

  pub verify_manifest-Guarded :
      (sm : SignedManifest) (st : KeyDir) → Guarded st (verify_manifest c to_lower sm st).1
  verify_manifest-Guarded sm st = elim (verify_manifest_cases c to_lower sm st) [
    | inl e ↦ subst (λ r. Guarded st r.1) (sym e) (Guarded-refl st)
    | inr (inl (devices, again, e)) ↦ subst (λ r. Guarded st r.1) (sym e) (Guarded-refl st)
    | inr (inr (m, read, good, e)) ↦
        subst (λ r. Guarded st r.1) (sym e)
          (believe-Guarded sm (normalize_screen_name to_lower sm.screen_name) m st)
  ]

  -- One signed device list after the other.
  unfoldable pub verify_all : List SignedManifest → KeyDir → KeyDir
  verify_all [] st = st
  verify_all (sm ∷ sms) st = verify_all sms (verify_manifest c to_lower sm st).1

  verify_all-Guarded : (sms : List SignedManifest) (st : KeyDir) → Guarded st (verify_all sms st)
  unfolding verify_all
  verify_all-Guarded [] st = Guarded-refl st
  verify_all-Guarded (sm ∷ sms) st =
      let st1 = (verify_manifest c to_lower sm st).1 in
      Guarded-trans st st1 (verify_all sms st1) (verify_manifest-Guarded sm st)
        (verify_all-Guarded sms st1)

  -- Whatever device lists the server presents, in any order and any number: as long as no warning about
  -- an account's identity has been shown, every pin, of a peer or of the account itself, that was there
  -- still names the same key, and its counter has not fallen.
  pub verify_all-PinsGrow :
      (sms : List SignedManifest) (st : KeyDir)
      → warnings (verify_all sms st) ≡ warnings st
      → PinsGrow st (verify_all sms st)
  verify_all-PinsGrow sms st quiet = elim (verify_all-Guarded sms st) [
    | inl warned ↦ absurd (omega arith)
    | inr (_, grow) ↦ grow
  ]
