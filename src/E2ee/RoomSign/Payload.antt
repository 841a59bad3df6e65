-- ===== src/E2ee/RoomSign/Payload.antt =====
-- What a reader of a signed payload gets: the parts that were signed, and whose they are.
use bencchat.Prelude.{
  ℕ, ◌+◌, ◌≤◌, ◌≡◌, refl, ◌∙◌, inl, inr, arith, Bool, true, false, ◌&&◌, some, List, [], ◌∷◌, ◌++◌,
  length, take, drop, All, All-append, take-append_eq, drop-append_eq, length-append, append_assoc,
  zero, suc, length-take, Any, Option, none, ltb, Bool-cases,
}
use bencchat.Prelude.Bytes.{Bytes, IsByte, bytes_eq, bytes_eq_refl, bytes_eq→eq}
use bencchat.Prelude.Outcome.{Result, ok}
use bencchat.Text.Hex
use bencchat.E2ee.Crypto.{Crypto, IsCrypto, IsKeyPair, SigningKeyPair}
use bencchat.E2ee.Stamp.{Stamped, put_uint64, encode_stamped, length-encode_stamped}
use bencchat.E2ee.RoomSign.{
  Parsed, parse_signed_payload, signer_id, raw_signer_id, payload_with, any_verifies, verify_signed,
  signing_context_v2, ForgedSignature,
}

take_bytes : (n : ℕ) (xs : Bytes) → All IsByte xs → All IsByte (take n xs)
take_bytes zero xs h = tt
take_bytes (suc n) [] h = tt
take_bytes (suc n) (x ∷ xs) h = (h.0, take_bytes n xs h.1)

-- The reader of four parts with the widths that the format fixes.
module _ (id sig stamp message : Bytes) (id8 : length id ≡ 8) (sig64 : length sig ≡ 64)
    (stamp24 : length stamp ≡ 24) where
  behind_id : drop 8 (id ++ (sig ++ (stamp ++ message))) ≡ sig ++ (stamp ++ message)
  behind_id = drop-append_eq 8 id _ id8

  behind_sig : drop 72 (id ++ (sig ++ (stamp ++ message))) ≡ stamp ++ message
  behind_sig =
      rw (← append_assoc id sig (stamp ++ message))
        (drop-append_eq 72 (id ++ sig) _ (omega (arith, length-append id sig)))

  behind_stamp : drop 96 (id ++ (sig ++ (stamp ++ message))) ≡ message
  behind_stamp =
      rw (← append_assoc id sig (stamp ++ message), ← append_assoc (id ++ sig) stamp message)
        (drop-append_eq 96 ((id ++ sig) ++ stamp) message
          (omega (arith, length-append id sig, length-append (id ++ sig) stamp)))

  long_enough : length (id ++ (sig ++ (stamp ++ message))) ≡ 96 + length message
  long_enough = omega (
    arith,
    length-append id (sig ++ (stamp ++ message)),
    length-append sig (stamp ++ message),
    length-append stamp message,
  )

  parse_parts : parse_signed_payload (2 ∷ (id ++ (sig ++ (stamp ++ message)))) ≡ record {
    message = message;
    signer_id = Hex.encode id;
    sig = sig;
    stamp = some stamp;
    signed = true;
  }
  unfolding parse_signed_payload
  parse_parts = rw (
    too_long 73 (omega arith),
    too_long 97 (omega arith),
    behind_stamp,
    behind_sig,
    behind_id,
    take-append_eq 8 id (sig ++ (stamp ++ message)) id8,
    take-append_eq 64 sig (stamp ++ message) sig64,
    take-append_eq 24 stamp message stamp24,
  )
    where
      too_long : (n : ℕ) → n ≤ 97 → ltb (suc (length (id ++ (sig ++ (stamp ++ message))))) n ≡ false
      too_long n h = ground (arith, long_enough)

module _ (c : Crypto) (laws : IsCrypto c) where
  raw_signer_id_lem :
      (pub_key : Bytes)
      → (raw_signer_id c pub_key ≡ take 8 (c.sha256 pub_key))
        × (length (raw_signer_id c pub_key) ≡ 8)
        × (Hex.encode (raw_signer_id c pub_key) ≡ signer_id c pub_key)
  unfolding raw_signer_id signer_id
  raw_signer_id_lem pub_key =
      let dec : Hex.decode (signer_id c pub_key) ≡ some (take 8 (c.sha256 pub_key)) =
        Hex.decode-encode _ (take_bytes 8 _ (laws.sha256_bytes pub_key)) in
      rw (dec, raw_signer_id)
        (refl, omega (arith, length-take 8 (c.sha256 pub_key), laws.sha256_length pub_key), refl)

  -- The payload that was signed is taken apart into the message, the device that signed, its
  -- signature and the stamp.
  pub parse-payload_with :
      (st : Stamped) (room message : Bytes) (kp : SigningKeyPair)
      → length st.id ≡ 16
      → parse_signed_payload (payload_with c st room message kp) ≡ record {
        message = message;
        signer_id = signer_id c kp.public_key;
        sig = c.sign kp.private_key (signing_context_v2 room (encode_stamped st []) message);
        stamp = some (encode_stamped st []);
        signed = true;
      }
  unfolding payload_with
  parse-payload_with st room message kp id16 =
      let (_, id8, name) = raw_signer_id_lem kp.public_key in
      parse_parts _ _ _ message id8 (laws.sign_length _ _) (length-encode_stamped st [] id16)
      ∙ rw name

  -- A payload is bytes, if its message and the message's name are.
  pub payload_with-IsByte :
      (st : Stamped) (room message : Bytes) (kp : SigningKeyPair)
      → All IsByte st.id
      → All IsByte message
      → All IsByte (payload_with c st room message kp)
  unfolding payload_with encode_stamped put_uint64
  payload_with-IsByte st room message kp id m =
      let raw : All IsByte (raw_signer_id c kp.public_key) =
        rw ((raw_signer_id_lem kp.public_key).0)
          (take_bytes 8 _ (laws.sha256_bytes kp.public_key)) in
      let stamp : All IsByte (encode_stamped st []) =
        All-append IsByte (put_uint64 st.sent_at) (st.id ++ []) (omega arith)
          (All-append IsByte st.id [] id tt) in
      (
        omega arith,
        All-append IsByte _ _ raw (
            All-append IsByte _ _ (laws.sign_bytes _ _)
              (All-append IsByte (encode_stamped st []) _ stamp m)),
      )

  -- The loop finds a key that is there.
  any_verifies_found :
      (ctx signer sig k : Bytes) (before after : List Bytes)
      → signer_id c k ≡ signer
      → c.verify k ctx sig ≡ true
      → any_verifies c ctx signer sig (before ++ k ∷ after) ≡ true
  unfolding any_verifies
  any_verifies_found ctx signer sig k [] after s v = rw (s, bytes_eq_refl signer, v)
  any_verifies_found ctx signer sig k (x ∷ before) after s v =
      ground (arith, any_verifies_found ctx signer sig k before after s v)

  -- The call that OpenRoomChain makes with what it parsed.
  abbrev pub verify_parsed : Bytes → Parsed → List Bytes → Result ForgedSignature Bool
  verify_parsed room p keys = verify_signed c room p.message p.signer_id p.sig p.stamp keys

  -- A payload that a device signed for a room verifies there against any list of the sender's keys
  -- that has the device's, and with no key known it is neither verified nor called forged.
  pub verify_signed-parsed :
      (st : Stamped) (room message : Bytes) (kp : SigningKeyPair) (before after : List Bytes)
      → IsKeyPair c kp
      → length st.id ≡ 16
      → (verify_parsed room
            (parse_signed_payload (payload_with c st room message kp))
            (before ++ kp.public_key ∷ after)
          ≡ ok true)
        × (verify_parsed room (parse_signed_payload (payload_with c st room message kp)) []
            ≡ ok false)
  verify_signed-parsed st room message kp before after pair id16 =
      rw (parse-payload_with st room message kp id16) (found before, unfold verify_signed in refl)
    where
      ctx : Bytes
      ctx = signing_context_v2 room (encode_stamped st []) message

      found :
          (front : List Bytes)
          → verify_signed c room message
              (signer_id c kp.public_key)
              (c.sign kp.private_key ctx)
              (some (encode_stamped st []))
              (front ++ kp.public_key ∷ after)
            ≡ ok true
      found [] =
          unfold verify_signed in
          rw (any_verifies_found ctx _ _ kp.public_key [] after refl (pair ctx))
      found (x ∷ front) =
          unfold verify_signed in
          rw (any_verifies_found ctx _ _ kp.public_key (x ∷ front) after refl (pair ctx))

  any_verifies_sound :
      (ctx signer sig : Bytes) (keys : List Bytes)
      → any_verifies c ctx signer sig keys ≡ true
      → Any (λ k. (signer_id c k ≡ signer) × (c.verify k ctx sig ≡ true)) keys
  unfolding any_verifies
  any_verifies_sound ctx signer sig [] e = ground arith
  any_verifies_sound ctx signer sig (k ∷ ks) e =
      elim (Bool-cases (bytes_eq (signer_id c k) signer && c.verify k ctx sig)) [
        | inl hit ↦ inl (ground (arith, bytes_eq→eq (signer_id c k) signer))
        | inr miss ↦ inr (any_verifies_sound ctx signer sig ks (ground arith))
      ]

  -- Whatever is accepted as verified was verified by a key of the sender: `ok true` means that some
  -- listed key has the claimed name and verifies the signature over this room, stamp and message.
  pub verify_signed_sound :
      (room message signer sig : Bytes) (stamp : Option Bytes) (keys : List Bytes)
      → verify_signed c room message signer sig stamp keys ≡ ok true
      → (s : Bytes) × (stamp ≡ some s)
        × Any
            (λ k.
              (signer_id c k ≡ signer)
              × (c.verify k (signing_context_v2 room s message) sig ≡ true))
            keys
  verify_signed_sound room message signer sig stamp [] e = unfold verify_signed in cc
  verify_signed_sound room message signer sig none (k ∷ ks) e = unfold verify_signed in cc
  verify_signed_sound room message signer sig (some s) (k ∷ ks) e =
      (s, refl, any_verifies_sound _ signer sig (k ∷ ks) (unfold verify_signed in ground arith))
