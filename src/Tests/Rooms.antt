-- ===== src/Tests/Rooms.antt =====
-- Signed and sealed room messages.
use bencchat.Prelude.{◌≡◌, refl, arith, some, [], ◌∷◌, true, Any}
use bencchat.Prelude.Bytes.{Bytes, bytes_eq_refl}
use bencchat.Prelude.Assoc.{lookup}
use bencchat.Prelude.Outcome.{ok}
use bencchat.Text.Ascii.{bytes, is_hex}
use bencchat.E2ee.Ratchet.{Chain, view}
use bencchat.E2ee.Ratchet.Agreement.{after_sends}
use bencchat.E2ee.Stamp.{Stamped, encode_stamped}
use bencchat.E2ee.RoomSign.{signing_context_v2, signer_id, verify_signed}
use bencchat.E2ee.RoomSign.Context
use bencchat.E2ee.RoomSign.Payload
use bencchat.E2ee.RoomChain.{envelope_text, room_envelope_chain, seal_room_chain, open_room_chain}
use bencchat.E2ee.RoomChain.Envelope
use bencchat.E2ee.RoomChain.Delivery
use bencchat.E2ee.RoomChain.Delivery.{delivered}
use bencchat.Tests.Toy.{fill, toy, toy-IsCrypto, key_pair, key_pair-IsKeyPair}

abbrev lobby : Bytes
lobby = bytes "lobby"

abbrev greeting : Bytes
greeting = bytes "hello"

abbrev dated : Stamped
dated = record { sent_at = 1700000000000; id = fill 16 5; text = [] }

abbrev chain : Chain
chain = record { id = bytes "00112233445566ff"; state = fill 32 9; index = 3 }

signing_context_v2_injective_example :
    (lobby ≡ lobby) × (fill 24 1 ≡ fill 24 1) × (greeting ≡ greeting)
signing_context_v2_injective_example =
    Context.signing_context_v2_injective lobby lobby (fill 24 1) (fill 24 1) greeting greeting
      (omega arith) (omega arith) refl refl (omega arith) (omega arith) refl

abbrev signature : Bytes
signature = fill 64 7

accepted :
    verify_signed toy lobby greeting
      (signer_id toy (7 ∷ []))
      signature
      (some (encode_stamped dated []))
      ((7 ∷ []) ∷ [])
    ≡ ok true
accepted =
    (rw (Payload.parse-payload_with toy toy-IsCrypto dated lobby greeting key_pair refl) at (
      Payload.verify_signed-parsed toy toy-IsCrypto dated lobby greeting key_pair [] []
        key_pair-IsKeyPair refl)).0

verify_signed_sound_example :
    (s : Bytes) × (some (encode_stamped dated []) ≡ some s)
    × Any
        (λ k.
          (signer_id toy k ≡ signer_id toy (7 ∷ []))
          × (toy.verify k (signing_context_v2 lobby s greeting) signature ≡ true))
        ((7 ∷ []) ∷ [])
verify_signed_sound_example =
    Payload.verify_signed_sound toy toy-IsCrypto lobby greeting (signer_id toy (7 ∷ [])) signature
      (some (encode_stamped dated [])) ((7 ∷ []) ∷ []) accepted

room_envelope_chain-envelope_text_example :
    room_envelope_chain (envelope_text (bytes "00112233445566ff") 70 (1 ∷ 2 ∷ []))
    ≡ some (bytes "00112233445566ff", 70)
unfolding is_hex
room_envelope_chain-envelope_text_example =
    Envelope.room_envelope_chain-envelope_text (bytes "00112233445566ff") 70 (1 ∷ 2 ∷ []) refl
      (ground arith) (omega arith)

chain_held : lookup chain.id ((chain.id, view chain) ∷ []) ≡ some (view chain)
unfolding lookup
chain_held = ground (arith, bytes_eq_refl chain.id)

open_room_chain-seal_room_chain_example :
    (envelope : Bytes) × (seal_room_chain toy
        (some (fill 16 5))
        1700000000000
        (some (fill 24 6))
        lobby
        greeting
        (some (after_sends toy.hmac 2 chain))
        key_pair
      ≡ (ok envelope, some (after_sends toy.hmac 3 chain)))
    × (open_room_chain toy lobby envelope
          ((chain.id, view chain) ∷ [])
          ((8 ∷ []) ∷ key_pair.public_key ∷ [])
        ≡ ok (
            delivered toy toy-IsCrypto
              (fill 16 5)
              1700000000000
              lobby
              greeting
              key_pair
              ((8 ∷ []) ∷ [])
              []
              key_pair-IsKeyPair
              refl
              (omega arith)))
unfolding is_hex
open_room_chain-seal_room_chain_example =
    Delivery.open_room_chain-seal_room_chain toy toy-IsCrypto (fill 16 5) 1700000000000 lobby
      greeting key_pair ((8 ∷ []) ∷ []) [] key_pair-IsKeyPair refl (omega arith) chain 2 (fill 24 6)
      ((chain.id, view chain) ∷ []) refl (omega arith) (omega arith) (omega arith) refl
      (ground arith) (omega arith) (omega arith) chain_held
