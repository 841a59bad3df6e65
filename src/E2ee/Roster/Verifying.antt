-- ===== src/E2ee/Roster/Verifying.antt =====
-- Who can make a roster that verifies: the holder of a key that the author publishes.
use bencchat.E2ee.Roster.{
  within_bounds, ok, sign_roster, Roster, roster_signing_context, some_key_verifies, verify_roster,
}
use bencchat.E2ee.Crypto.{IsKeyPair, SigningKeyPair, IsCrypto, Crypto}
use bencchat.Prelude.Bytes.{bytes_eq_refl, Bytes, bytes_eq, bytes_eq→eq}
use bencchat.Prelude.{
  subst, ◌≡◌, refl, arith, true, List, [], ◌∷◌, length, Any, inl, inr, Bool-cases,
}
use bencchat.E2ee.RoomSign.{signer_id}

some_key_verifies_sound :
    (c : Crypto) (r : Roster) (keys : List Bytes)
    → some_key_verifies c r keys ≡ true
    → Any
        (λ k.
          (signer_id c k ≡ r.signer) × (c.verify k (roster_signing_context r) r.signature ≡ true))
        keys
unfolding some_key_verifies
some_key_verifies_sound c r [] e = ground arith
some_key_verifies_sound c r (k ∷ ks) e = elim (Bool-cases (bytes_eq (signer_id c k) r.signer)) [
  | inr other ↦ inr (some_key_verifies_sound c r ks (ground (arith, e, other)))
  | inl mine ↦ elim (Bool-cases (c.verify k (roster_signing_context r) r.signature)) [
    | inl good ↦ inl (bytes_eq→eq (signer_id c k) r.signer mine, good)
    | inr bad ↦ inr (some_key_verifies_sound c r ks (ground (arith, e, mine, bad)))
  ]
]

-- A roster counts as verified only where a key that the author publishes bears the signer's name and
-- verifies the signature over the whole statement; with no key known it never does.
pub verify_roster_sound :
    (c : Crypto) (r : Roster) (keys : List Bytes)
    → verify_roster c r keys ≡ true
    → (length r.signature ≡ 64)
      × Any
          (λ k.
            (signer_id c k ≡ r.signer) × (c.verify k (roster_signing_context r) r.signature ≡ true))
          keys
unfolding verify_roster
verify_roster_sound c r keys e = (ground arith, some_key_verifies_sound c r keys (ground arith))

some_key_verifies-Mem :
    (c : Crypto) (r : Roster) (k : Bytes) (keys : List Bytes)
    → Any (λ j. k ≡ j) keys
    → signer_id c k ≡ r.signer
    → c.verify k (roster_signing_context r) r.signature ≡ true
    → some_key_verifies c r keys ≡ true
unfolding some_key_verifies
some_key_verifies-Mem c r k [] known mine good = elim known [ ]
some_key_verifies-Mem c r k (j ∷ js) (inl e) mine good =
    subst (λ x. some_key_verifies c r (x ∷ js) ≡ true) e
      (rw (mine, good, some_key_verifies, bytes_eq_refl r.signer) refl)
some_key_verifies-Mem c r k (j ∷ js) (inr m) mine good =
    ground (arith, some_key_verifies-Mem c r k js m mine good)

-- A roster that a device signs verifies for everybody who knows that device's key, whatever other
-- keys the author publishes.
pub verify_roster-sign_roster :
    (c : Crypto) (law : IsCrypto c) (kp : SigningKeyPair) (pair : IsKeyPair c kp) (r s : Roster)
    (keys : List Bytes)
    → Any (λ k. kp.public_key ≡ k) keys
    → sign_roster c r kp ≡ ok s
    → verify_roster c s keys ≡ true
unfolding verify_roster sign_roster roster_signing_context
verify_roster-sign_roster c law kp pair r s keys known e =
    let made : Roster = record r {
      signer = signer_id c kp.public_key;
      signature = c.sign kp.private_key (roster_signing_context r);
    } in
    let inside : within_bounds r ≡ true = ground (arith, e) in
    let same : made ≡ s = ground (arith, e, inside) in
    let good : some_key_verifies c made keys ≡ true =
      some_key_verifies-Mem c made kp.public_key keys known refl
        (pair (roster_signing_context r)) in
    subst (λ t. verify_roster c t keys ≡ true) same
      (rw (law.sign_length kp.private_key (roster_signing_context r), good) refl)
