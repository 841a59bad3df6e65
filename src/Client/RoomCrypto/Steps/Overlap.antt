-- ===== src/Client/RoomCrypto/Steps/Overlap.antt =====
-- Two sends at once. reserveChainPositions gives the lock back between its promise and its write,
-- and a second send that runs in that gap finds the promise standing.
use bencchat.Prelude.{ℕ, ◌+◌, ◌%◌, ◌^◌, ◌<◌, ◌≡◌, ap, ◌∙◌, arith, Option, none, some, true, false}
use bencchat.Prelude.Bytes.{Bytes}
use bencchat.E2ee.Crypto.{Crypto, IsCrypto, SigningKeyPair}
use bencchat.E2ee.Ratchet.{Chain, next}
use bencchat.E2ee.RoomChain.{envelope_text}
use bencchat.Client.RoomCrypto.{RoomKeys, Saved, chain_reservation_block, ensure}
use bencchat.Client.RoomCrypto.Durable.{stored, restored, apply_room_entry_lem}
use bencchat.Client.RoomCrypto.Send.{
  Persist, sealed, reservation, raise_reservation, record_use, reserve_chain_positions,
  seal_room_message,
}
use bencchat.Client.RoomCrypto.Steps.{restart}
use bencchat.Client.RoomCrypto.Steps.Reserve.{room_part}
use bencchat.Client.RoomCrypto.Steps.Sealing.{seal_reserved-some}
use bencchat.Client.RoomCrypto.Steps.Availability.{seal_by_chain-some}

module _ (c : Crypto) (laws : IsCrypto c) where
  restart-stored :
      (disk : Option Saved) (d : Chain) (n : ℕ)
      → stored disk ≡ some (d, n)
      → (room_part (restart c.hmac disk)).0 ≡ some d
  unfolding restart
  restart-stored none d n e = unfold stored in cc
  restart-stored (some s) d n e =
      ap (λ p. p.0) (apply_room_entry_lem c laws s (ensure none))
      ∙ ap (λ k. (restored k (ensure none)).0) e

  -- A room has used up its promise, and the disk holds its chain at that very position. One send has
  -- raised the promise in memory and not written it yet. A second send then goes out at that
  -- position with the disk as it was, and the chain that a restart takes from this disk stands at
  -- the same position again.
  pub seal_room_message-unwritten :
      (hook : Persist) (name : Bytes) (now : ℕ) (nonce room text : Bytes) (kp : SigningKeyPair)
      (rk : RoomKeys) (disk : Option Saved) (ch : Chain) (n : ℕ)
      → rk.out ≡ some ch
      → rk.stale_chain ≡ false
      → rk.chain_shared ≡ true
      → rk.reserved_through ≡ ch.index
      → ch.index + chain_reservation_block < 2 ^ 32
      → stored disk ≡ some (ch, n)
      → (box : Bytes) × (rk' : RoomKeys) × (seal_room_message c hook
            (some name)
            now
            (some nonce)
            room
            text
            (some kp)
            (some (raise_reservation ((ch.index + chain_reservation_block) % 2 ^ 32) rk))
            disk
          ≡ (sealed (envelope_text ch.id ch.index box), some rk', disk))
        × ((room_part (restart c.hmac disk)).0 ≡ some ch)
  unfolding seal_room_message
  seal_room_message-unwritten hook name now nonce room text kp rk disk ch n e ready shared spent
        fits held =
      let want : ℕ = (ch.index + chain_reservation_block) % 2 ^ 32 in
      let raised : RoomKeys = record rk { reserved_through = want } in
      let raising : raise_reservation want rk ≡ raised =
        unfold raise_reservation in ground (arith, spent) in
      let idle : reserve_chain_positions c hook raised disk ≡ (true, raised, disk) =
        unfold reserve_chain_positions reservation in ground (arith, e) in
      let (box, sealing) =
        seal_by_chain-some c name now nonce room text kp raised ch e ready shared (omega arith) in
      (
        box,
        record_use ch (some (next c.hmac ch).2) raised,
        rw (raising, idle)
            (seal_reserved-some c (some name) now (some nonce) room text kp raised disk _ _
              sealing),
        restart-stored disk ch n held,
      )
