-- ===== src/E2ee/RoomChain/Outcomes.antt =====
-- How a seal can end, and what it does to the chain in each case.
use bencchat.Prelude.{ℕ, ◌≡◌, refl, ◌⊎◌, inl, inr, Option, none, some}
use bencchat.Prelude.Bytes.{Bytes}
use bencchat.Prelude.Outcome.{ok, err}
use bencchat.E2ee.Crypto.{Crypto, SigningKeyPair}
use bencchat.E2ee.Ratchet.{Chain, next}
use bencchat.E2ee.RoomSign.{sign_payload}
use bencchat.E2ee.Stamp.{new_stamp}
use bencchat.E2ee.RoomChain.{stamp_failed, nonce_failed, envelope_text, seal_room_chain}

-- With no random name the chain stays where it is; past that point every seal moves it by one
-- position, and a success names the position that the chain stood at.
pub seal_room_chain_cases :
    (c : Crypto) (name : Option Bytes) (now : ℕ) (random : Option Bytes) (room text : Bytes)
    (ch : Chain) (kp : SigningKeyPair)
    → (seal_room_chain c name now random room text (some ch) kp ≡ (err stamp_failed, some ch))
      ⊎ ((seal_room_chain c name now random room text (some ch) kp
            ≡ (err nonce_failed, some (next c.hmac ch).2))
          ⊎ ((box : Bytes) × (seal_room_chain c name now random room text (some ch) kp
                ≡ (ok (envelope_text ch.id ch.index box), some (next c.hmac ch).2))))
unfolding seal_room_chain sign_payload new_stamp next
seal_room_chain_cases c none now random room text ch kp = inl refl
seal_room_chain_cases c (some name) now none room text ch kp = inr (inl refl)
seal_room_chain_cases c (some name) now (some n) room text ch kp = inr (inr (_, refl))
