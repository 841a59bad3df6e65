-- ===== src/E2ee/RoomChain/Delivery.antt =====
-- From one end to the other: what a member seals, a member who was given the chain opens.
use bencchat.Prelude.{
  ℕ, suc, ◌+◌, ◌*◌, ◌^◌, ◌<◌, ◌≤◌, ◌≡◌, refl, sym, subst, ◌∙◌, arith, true, false, some, List, [],
  ◌∷◌, ◌++◌, All, All-append, length, length-append, take-append_eq, drop-append_eq, ltb,
}
use bencchat.Prelude.Bytes.{Bytes, IsByte}
use bencchat.Prelude.Outcome.{ok}
use bencchat.Prelude.Assoc.{lookup}
use bencchat.Text.Ascii.{is_hex}
use bencchat.E2ee.Crypto.{Crypto, IsCrypto, IsKeyPair, SigningKeyPair}
use bencchat.E2ee.Ratchet.{Chain, ChainView, max_chain_skip, view, next, message_key}
use bencchat.E2ee.Ratchet.Agreement.{after_sends, after_sends-suc, after_sends-id, message_key-next}
use bencchat.E2ee.ChainCodec.{chain_id_len}
use bencchat.E2ee.Stamp.{Stamped, new_stamp, decode_stamped-encode_stamped}
use bencchat.E2ee.RoomSign.{signer_id, payload_with, parse_signed_payload, sign_payload}
use bencchat.E2ee.RoomSign.Payload.{parse-payload_with, payload_with-IsByte, verify_signed-parsed}
use bencchat.E2ee.RoomChain.{
  SignedMessage, seal_room_chain, open_room_chain, open_sealed, check_signature, with_stamp,
  envelope_text,
}
use bencchat.E2ee.RoomChain.Envelope.{
  room_envelope_chain-envelope_text, envelope_payload-envelope_text,
}

module _ (c : Crypto) (laws : IsCrypto c) where
  module _ (name : Bytes) (now : ℕ) (room message : Bytes) (kp : SigningKeyPair)
      (before after : List Bytes) (pair : IsKeyPair c kp) (name16 : length name ≡ 16)
      (time_range : now < 2 ^ 64) where
    abbrev stamp : Stamped
    stamp = record { sent_at = now; id = name; text = [] }

    -- What the reader is told.
    abbrev pub delivered : SignedMessage
    delivered = record {
      text = message;
      signer_id = signer_id c kp.public_key;
      signed = true;
      verified = true;
      sent_at = some now;
      id = name;
    }

    check_payload :
        check_signature c room
          (parse_signed_payload (payload_with c stamp room message kp))
          (before ++ kp.public_key ∷ after)
        ≡ ok delivered
    unfolding check_signature
    check_payload =
        let parsed = parse-payload_with c laws stamp room message kp name16 in
        let signature =
          (verify_signed-parsed c laws stamp room message kp before after pair name16).0 in
        let dated = decode_stamped-encode_stamped stamp [] time_range name16 in
        subst (λ p. check_signature c room p (before ++ kp.public_key ∷ after) ≡ ok delivered)
          (sym parsed) (rw (rw parsed at signature) (rw (dated, with_stamp)))

    -- A box that holds the payload, opened with the right key.
    open_sealed-payload :
        (nonce key : Bytes)
        → length nonce ≡ 24
        → open_sealed c room key
            (some (nonce ++ c.seal nonce key (payload_with c stamp room message kp)))
            (before ++ kp.public_key ∷ after)
          ≡ ok delivered
    unfolding open_sealed
    open_sealed-payload nonce key n24 =
        let box = c.seal nonce key (payload_with c stamp room message kp) in
        let long : ltb (length (nonce ++ box)) 40 ≡ false = ground (
          arith,
          length-append nonce box,
          laws.seal_length nonce key (payload_with c stamp room message kp),
        ) in
        rw
          (
            long,
            take-append_eq 24 nonce box n24,
            drop-append_eq 24 nonce box n24,
            laws.unseal-seal nonce key (payload_with c stamp room message kp),
          )
          check_payload

    -- The envelope that carries the payload in a box under `key`.
    abbrev envelope_of : Bytes → ℕ → Bytes → Bytes → Bytes
    envelope_of id index nonce key =
        envelope_text id index (nonce ++ c.seal nonce key (payload_with c stamp room message kp))

    pub seal_room_chain_lem :
        (chain : Chain) (nonce : Bytes)
        → seal_room_chain c (some name) now (some nonce) room message (some chain) kp ≡ (
          ok (envelope_of chain.id chain.index nonce (next c.hmac chain).0),
          some (next c.hmac chain).2,
        )
    unfolding seal_room_chain sign_payload new_stamp next
    seal_room_chain_lem chain nonce = refl

    open_envelope :
        (id : Bytes) (index : ℕ) (nonce key : Bytes) (v : ChainView)
        (views : List (Bytes × ChainView))
        → length nonce ≡ 24
        → All IsByte nonce
        → All IsByte name
        → All IsByte message
        → length id ≡ chain_id_len * 2
        → All (λ d. is_hex d ≡ true) id
        → index < 2 ^ 32
        → lookup id views ≡ some v
        → message_key c.hmac v index ≡ ok key
        → open_room_chain c room
            (envelope_of id index nonce key)
            views
            (before ++ kp.public_key ∷ after)
          ≡ ok delivered
    unfolding open_room_chain
    open_envelope id index nonce key v views n24 nb nameb mb id16 hex range held derived =
        let payload = payload_with c stamp room message kp in
        let sealed = nonce ++ c.seal nonce key payload in
        let sealed_bytes = All-append IsByte nonce (c.seal nonce key payload) nb (
          laws.seal_bytes nonce key payload
            (payload_with-IsByte c laws stamp room message kp nameb mb)) in
        rw
          (
            room_envelope_chain-envelope_text id index sealed id16 hex range,
            held,
            derived,
            open_room_chain,
          )
          (rw (envelope_payload-envelope_text id index sealed id16 hex range sealed_bytes)
            (open_sealed-payload nonce key n24))

    -- A reader that holds the view of the sender's chain, handed over before the last `n` messages,
    -- and knows the sender's device key, opens the next message: it gets the text, the device, the
    -- time and the name, and the message counts as verified.
    pub open_room_chain-seal_room_chain :
        (chain : Chain) (n : ℕ) (nonce : Bytes) (views : List (Bytes × ChainView))
        → length nonce ≡ 24
        → All IsByte nonce
        → All IsByte name
        → All IsByte message
        → length chain.id ≡ chain_id_len * 2
        → All (λ d. is_hex d ≡ true) chain.id
        → n ≤ max_chain_skip
        → chain.index + n < 2 ^ 32
        → lookup chain.id views ≡ some (view chain)
        → (envelope : Bytes) × (seal_room_chain c
              (some name)
              now
              (some nonce)
              room
              message
              (some (after_sends c.hmac n chain))
              kp
            ≡ (ok envelope, some (after_sends c.hmac (suc n) chain)))
          × (open_room_chain c room envelope views (before ++ kp.public_key ∷ after) ≡ ok delivered)
    open_room_chain-seal_room_chain chain n nonce views n24 nb nameb mb id16 hex small fits held =
        let (agreed, position, named) = message_key-next c.hmac chain n small fits in
        let sender = after_sends c.hmac n chain in
        let key = (next c.hmac sender).0 in
        let same_id : sender.id ≡ chain.id = after_sends-id c.hmac n chain in
        let same_index : sender.index ≡ chain.index + n = unfold next in position in
        (
          envelope_of chain.id (chain.index + n) nonce key,
          seal_room_chain_lem sender nonce
              ∙ simp (same_id, same_index, after_sends-suc c.hmac n chain),
          open_envelope chain.id (chain.index + n) nonce key (view chain) views n24 nb nameb mb id16
              hex fits held (rw (← position) agreed),
        )
