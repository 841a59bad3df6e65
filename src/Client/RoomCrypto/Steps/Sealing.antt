-- ===== src/Client/RoomCrypto/Steps/Sealing.antt =====
-- A send keeps the room safe, whichever way it ends.
use bencchat.Client.RoomCrypto.Steps.Reserve.{
  room_part, IsSafeWorld, reserve_chain_positions-IsSafe,
}
use bencchat.Client.RoomCrypto.Send.{
  not_reserved, Persist, absent, sealed, refused, not_encrypted, seal_by_key, sealed_with,
  record_use, Sent, seal_reserved, seal_by_chain, seal_room_message,
}
use bencchat.Prelude.{
  true, false, Bool, Bool-cases, ◌⊎◌, ℕ, ◌<◌, ◌≡◌, ◌≢◌, refl, sym, subst, arith, Option, none, some,
  ◌∷◌, leb, Option-cases, inl, inr,
}
use bencchat.Prelude.Bytes.{Bytes}
use bencchat.E2ee.Crypto.{Crypto, IsCrypto, SigningKeyPair}
use bencchat.E2ee.Ratchet.{Chain, view, next}
use bencchat.E2ee.ChainCodec.RoundTrip.{IsWellFormed}
use bencchat.E2ee.RoomKey.{seal_room, seal_room_signed, seal_room_payload}
use bencchat.E2ee.RoomSign.{sign_payload}
use bencchat.E2ee.Stamp.{new_stamp}
use bencchat.Text.Ascii.{has_prefix}
use bencchat.E2ee.RoomChain.{
  is_room_chain_envelope, room_envelope_chain, envelope_text, seal_room_chain,
}
use bencchat.E2ee.RoomChain.Envelope.{room_envelope_chain-envelope_text}
use bencchat.E2ee.RoomChain.Outcomes.{seal_room_chain_cases}
use bencchat.Client.RoomCrypto.{RoomKeys, Saved, usable_chain}
use bencchat.Client.RoomCrypto.Durable.{chain_part, stored}
use bencchat.Client.RoomCrypto.Reuse.{Used, IsSafe, IsSafe-next, IsSafe-sealed}
use bencchat.Client.RoomCrypto.Steps.{World, log_sent, send}

-- What a send leaves.
abbrev logged : Sent × Option RoomKeys × Option Saved → Used → World
logged (sent, state, disk) u = record { room = state; disk = disk; used = log_sent sent u }

-- One under a chain names its chain and position.
log-envelope_text :
    (ch : Chain) (box : Bytes) (u : Used)
    → IsWellFormed (view ch)
    → log_sent (sealed (envelope_text ch.id ch.index box)) u ≡ (ch.id, ch.index) ∷ u
unfolding log_sent view
log-envelope_text ch box u wf = rw (
  room_envelope_chain-envelope_text ch.id ch.index box wf.id_length wf.id_digits wf.index_range,
  log_sent,
)

module _ (c : Crypto) where
  -- An envelope under the shared key names no chain position.
  log-seal_room :
      (random : Option Bytes) (text key : Bytes) (rk : RoomKeys) (u : Used)
      → log_sent
          (elim (seal_room c random text key) [
            | none ↦ refused not_encrypted
            | some env ↦ sealed env
          ])
          u
        ≡ u
  unfolding seal_room seal_room_payload log_sent room_envelope_chain is_room_chain_envelope
      has_prefix
  log-seal_room none text key rk u = refl
  log-seal_room (some n) text key rk u = refl

  log-seal_room_signed :
      (name : Option Bytes) (now : ℕ) (random : Option Bytes) (room text key : Bytes)
      (kp : SigningKeyPair) (u : Used)
      → log_sent
          (elim (seal_room_signed c name now random room text key kp) [
            | none ↦ refused not_encrypted
            | some env ↦ sealed env
          ])
          u
        ≡ u
  unfolding seal_room_signed seal_room_payload sign_payload new_stamp log_sent room_envelope_chain
      is_room_chain_envelope has_prefix
  log-seal_room_signed none now random room text key kp u = refl
  log-seal_room_signed (some name) now none room text key kp u = refl
  log-seal_room_signed (some name) now (some n) room text key kp u = refl

  log-seal_by_key :
      (name : Option Bytes) (now : ℕ) (random : Option Bytes) (room text : Bytes)
      (signer : Option SigningKeyPair) (state : Option RoomKeys) (u : Used)
      → log_sent (seal_by_key c name now random room text signer state) u ≡ u
  unfolding log_sent seal_by_key
  log-seal_by_key name now random room text signer none u = refl
  log-seal_by_key name now random room text none (some rk) u =
      ground (arith, log-seal_room random text rk.current rk u)
  log-seal_by_key name now random room text (some kp) (some rk) u =
      ground (arith, log-seal_room_signed name now random room text rk.current kp u)

  -- The chain is used where there is one, it is not stale, it is shared and its position is promised.
  pub seal_by_chain_cases :
      (name : Option Bytes) (now : ℕ) (random : Option Bytes) (room text : Bytes)
      (kp : SigningKeyPair) (rk : RoomKeys)
      → (seal_by_chain c name now random room text kp rk ≡ none)
        ⊎ ((seal_by_chain c name now random room text kp rk ≡ some (refused not_reserved, rk))
            ⊎ ((ch : Chain) × (rk.out ≡ some ch)
                × (ch.index < rk.reserved_through)
                × (seal_by_chain c name now random room text kp rk
                    ≡ some (
                        sealed_with c ch rk
                          (seal_room_chain c name now random room text (some ch) kp)))))
  unfolding seal_by_chain usable_chain
  seal_by_chain_cases name now random room text kp rk = elim (Option-cases rk.out) [
    | inl e ↦ inl (ground (arith, e))
    | inr (ch, e) ↦ elim (Bool-cases rk.stale_chain) [
      | inl stale ↦ inl (ground (arith, e, stale))
      | inr ready ↦ elim (Bool-cases rk.chain_shared) [
        | inr alone ↦ inl (ground (arith, e, ready, alone))
        | inl shared ↦ elim (Bool-cases (leb rk.reserved_through ch.index)) [
          | inl spent ↦ inr (inl (ground (arith, e, ready, shared, spent)))
          | inr fresh ↦
              inr (inr (ch, e, ground (arith, fresh), ground (arith, e, ready, shared, fresh)))
        ]
      ]
    ]
  ]

  seal_reserved-none :
      (name : Option Bytes) (now : ℕ) (random : Option Bytes) (room text : Bytes)
      (kp : SigningKeyPair) (rk : RoomKeys) (disk : Option Saved)
      → seal_by_chain c name now random room text kp rk ≡ none
      → seal_reserved c name now random room text kp (true, rk, disk)
        ≡ (seal_by_key c name now random room text (some kp) (some rk), some rk, disk)
  unfolding seal_reserved
  seal_reserved-none name now random room text kp rk disk e = rw (e, seal_reserved)

  pub seal_reserved-some :
      (name : Option Bytes) (now : ℕ) (random : Option Bytes) (room text : Bytes)
      (kp : SigningKeyPair) (rk : RoomKeys) (disk : Option Saved) (sent : Sent) (rk' : RoomKeys)
      → seal_by_chain c name now random room text kp rk ≡ some (sent, rk')
      → seal_reserved c name now random room text kp (true, rk, disk) ≡ (sent, some rk', disk)
  unfolding seal_reserved
  seal_reserved-some name now random room text kp rk disk sent rk' e = rw (e, seal_reserved)

module _ (c : Crypto) (laws : IsCrypto c) where
  sealed_with-IsSafe :
      (name : Option Bytes) (now : ℕ) (random : Option Bytes) (room text : Bytes)
      (kp : SigningKeyPair) (rk : RoomKeys) (ch : Chain) (k : Option (Chain × ℕ)) (u : Used)
      → rk.out ≡ some ch
      → ch.index < rk.reserved_through
      → IsSafe (chain_part rk) k u
      → IsSafe
          (chain_part
            (sealed_with c ch rk (seal_room_chain c name now random room text (some ch) kp)).1)
          k
          (log_sent
            (sealed_with c ch rk (seal_room_chain c name now random room text (some ch) kp)).0
            u)
  unfolding sealed_with record_use log_sent
  sealed_with-IsSafe name now random room text kp rk ch k u e lt s =
      let s' : IsSafe (some ch, rk.reserved_through) k u =
        subst (λ o. IsSafe (o, rk.reserved_through) k u) e s in
      elim (seal_room_chain_cases c name now random room text ch kp) [
        | inl stuck ↦ rw stuck s'
        | inr (inl burned) ↦ rw burned (IsSafe-next c laws ch rk.reserved_through k u lt s')
        | inr (inr (box, sent)) ↦
            let wf : IsWellFormed (view ch) = s'.live.0 in
            rw sent (
              subst (λ l. IsSafe (some (next c.hmac ch).2, rk.reserved_through) k l)
                (sym (log-envelope_text ch box u wf))
                (IsSafe-sealed c laws ch rk.reserved_through k u lt s'))
      ]

  seal_reserved-IsSafe :
      (name : Option Bytes) (now : ℕ) (random : Option Bytes) (room text : Bytes)
      (kp : SigningKeyPair) (stands : Bool) (rk : RoomKeys) (disk : Option Saved) (u : Used)
      → IsSafe (chain_part rk) (stored disk) u
      → IsSafeWorld (logged (seal_reserved c name now random room text kp (stands, rk, disk)) u)
  seal_reserved-IsSafe name now random room text kp false rk disk u s =
      unfold seal_reserved log_sent in s
  seal_reserved-IsSafe name now random room text kp true rk disk u s =
      elim (seal_by_chain_cases c name now random room text kp rk) [
        | inl e ↦ rw (seal_reserved-none c name now random room text kp rk disk e) (
            subst (λ l. IsSafe (chain_part rk) (stored disk) l)
              (sym (log-seal_by_key c name now random room text (some kp) (some rk) u)) s)
        | inr (inl e) ↦
            rw
              (seal_reserved-some c name now random room text kp rk disk (refused not_reserved) rk
                e)
              (unfold log_sent in s)
        | inr (inr (ch, e, lt, sealing)) ↦
            rw (seal_reserved-some c name now random room text kp rk disk _ _ sealing)
              (sealed_with-IsSafe name now random room text kp rk ch (stored disk) u e lt s)
      ]

  seal_room_message-IsSafe :
      (hook : Persist) (name : Option Bytes) (now : ℕ) (random : Option Bytes) (room text : Bytes)
      (signer : Option SigningKeyPair) (state : Option RoomKeys) (disk : Option Saved) (u : Used)
      → hook ≢ absent
      → IsSafe (room_part state) (stored disk) u
      → IsSafeWorld
          (logged (seal_room_message c hook name now random room text signer state disk) u)
  unfolding seal_room_message
  seal_room_message-IsSafe hook name now random room text none state disk u h s =
      rw (log-seal_by_key c name now random room text none state u) s
  seal_room_message-IsSafe hook name now random room text (some kp) none disk u h s =
      rw (log-seal_by_key c name now random room text (some kp) none u) s
  seal_room_message-IsSafe hook name now random room text (some kp) (some rk) disk u h s =
      seal_reserved-IsSafe name now random room text kp _ _ _ u
        (reserve_chain_positions-IsSafe c laws hook rk disk u h s)

  -- Any send leaves the room safe: with or without keys, a write that fails, a seal that fails.
  pub send-IsSafe :
      (hook : Persist) (name : Option Bytes) (now : ℕ) (random : Option Bytes) (room text : Bytes)
      (signer : Option SigningKeyPair) (w : World)
      → hook ≢ absent
      → IsSafeWorld w
      → IsSafeWorld (send c hook name now random room text signer w)
  unfolding send
  send-IsSafe hook name now random room text signer w h s =
      seal_room_message-IsSafe hook name now random room text signer w.room w.disk w.used h s
