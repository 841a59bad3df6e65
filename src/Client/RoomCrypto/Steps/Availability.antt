-- ===== src/Client/RoomCrypto/Steps/Availability.antt =====
-- A send goes out where its promise can be written, and changes nothing where it cannot.
use bencchat.Prelude.{
  ℕ, ◌+◌, ◌%◌, ◌^◌, ◌≤◌, ◌<◌, ◌≡◌, refl, ◌∙◌, arith, inl, inr, true, false, Option, some,
  Bool-cases, leb,
}
use bencchat.Prelude.Bytes.{Bytes}
use bencchat.E2ee.Crypto.{Crypto, SigningKeyPair}
use bencchat.E2ee.Ratchet.{Chain, next}
use bencchat.E2ee.Stamp.{new_stamp}
use bencchat.E2ee.RoomSign.{sign_payload}
use bencchat.E2ee.RoomChain.{seal_room_chain, envelope_text}
use bencchat.Client.RoomCrypto.{RoomKeys, Saved, chain_reservation_block, usable_chain}
use bencchat.Client.RoomCrypto.Steps.Sealing.{seal_reserved-some}
use bencchat.Client.RoomCrypto.Steps.Reserve.{withdraw_lem}
use bencchat.Client.RoomCrypto.Durable.{chain_part}
use bencchat.Prelude.Outcome.{ok}
use bencchat.Client.RoomCrypto.Send.{
  persist_room_chain, writes, fails, sealed, refused, not_recorded, reservation, raise_reservation,
  withdraw_reservation, record_use, reserve_by, reserve_chain_positions, seal_by_chain, sealed_with,
  seal_reserved, seal_room_message,
}

module _ (c : Crypto) where
  seal_room_chain-some :
      (name : Bytes) (now : ℕ) (n room text : Bytes) (ch : Chain) (kp : SigningKeyPair)
      → (box : Bytes) × (seal_room_chain c (some name) now (some n) room text (some ch) kp
          ≡ (ok (envelope_text ch.id ch.index box), some (next c.hmac ch).2))
  unfolding seal_room_chain sign_payload new_stamp next
  seal_room_chain-some name now n room text ch kp = (_, refl)

  -- With the promise standing, the chain is used.
  pub seal_by_chain-some :
      (name : Bytes) (now : ℕ) (n room text : Bytes) (kp : SigningKeyPair) (rk : RoomKeys)
      (ch : Chain)
      → rk.out ≡ some ch
      → rk.stale_chain ≡ false
      → rk.chain_shared ≡ true
      → ch.index < rk.reserved_through
      → (box : Bytes) × (seal_by_chain c (some name) now (some n) room text kp rk
          ≡ some (
            sealed (envelope_text ch.id ch.index box),
            record_use ch (some (next c.hmac ch).2) rk,
          ))
  unfolding seal_by_chain usable_chain sealed_with
  seal_by_chain-some name now n room text kp rk ch e ready shared promised =
      let (box, sealing) = seal_room_chain-some name now n room text ch kp in
      let used : seal_by_chain c (some name) now (some n) room text kp rk
          ≡ some (
              sealed_with c ch rk
                (seal_room_chain c (some name) now (some n) room text (some ch) kp)) =
        ground (arith, e, ready, shared) in
      (box, used ∙ rw sealing refl)

  reserve_chain_positions-writes :
      (rk : RoomKeys) (disk : Option Saved) (ch : Chain)
      → rk.out ≡ some ch
      → ch.index ≤ rk.reserved_through
      → ch.index + chain_reservation_block < 2 ^ 32
      → (r : ℕ) × (disk' : Option Saved) × (reserve_chain_positions c writes rk disk
          ≡ (true, record rk { reserved_through = r }, disk'))
        × (ch.index < r)
  unfolding reserve_chain_positions reserve_by reservation raise_reservation
  reserve_chain_positions-writes rk disk ch e low room =
      elim (Bool-cases (leb rk.reserved_through ch.index)) [
        | inl spent ↦ (
          (ch.index + chain_reservation_block) % 2 ^ 32,
          some (
              persist_room_chain c
                (record rk { reserved_through = (ch.index + chain_reservation_block) % 2 ^ 32 })
                disk),
          ground (arith, e, spent),
          omega arith,
        )
        | inr ahead ↦ (rk.reserved_through, disk, ground (arith, e, ahead), ground (arith, ahead))
      ]

  -- A room whose chain is live, shared and not to be replaced sends: where the durable write and
  -- the random source work and a block of positions is left, the message goes out under the chain,
  -- at the position it stands at, and the chain moves past that position, which lies behind the
  -- reservation.
  pub seal_room_message-writes :
      (name : Bytes) (now : ℕ) (n room text : Bytes) (kp : SigningKeyPair) (rk : RoomKeys)
      (disk : Option Saved) (ch : Chain)
      → rk.out ≡ some ch
      → rk.stale_chain ≡ false
      → rk.chain_shared ≡ true
      → ch.index ≤ rk.reserved_through
      → ch.index + chain_reservation_block < 2 ^ 32
      → (box : Bytes) × (rk' : RoomKeys) × (disk' : Option Saved) × (seal_room_message c writes
            (some name)
            now
            (some n)
            room
            text
            (some kp)
            (some rk)
            disk
          ≡ (sealed (envelope_text ch.id ch.index box), some rk', disk'))
        × (rk'.out ≡ some (next c.hmac ch).2)
        × (ch.index < rk'.reserved_through)
  unfolding seal_room_message record_use
  seal_room_message-writes name now n room text kp rk disk ch e ready shared low fits =
      let (r, disk', reserving, promised) = reserve_chain_positions-writes rk disk ch e low fits in
      let raised : RoomKeys = record rk { reserved_through = r } in
      let (box, sealing) =
        seal_by_chain-some name now n room text kp raised ch e ready shared promised in
      (
        box,
        record_use ch (some (next c.hmac ch).2) raised,
        disk',
        rw reserving
            (seal_reserved-some c (some name) now (some n) room text kp raised disk' _ _ sealing),
        refl,
        promised,
      )

  -- Where the write fails and the promise is spent, nothing goes out and nothing moves: the message
  -- is refused, and the chain, the promise and the disk are as before.
  pub seal_room_message-fails :
      (name : Option Bytes) (now : ℕ) (random : Option Bytes) (room text : Bytes)
      (kp : SigningKeyPair) (rk : RoomKeys) (disk : Option Saved) (ch : Chain)
      → rk.out ≡ some ch
      → rk.reserved_through ≡ ch.index
      → ch.index < 2 ^ 32
      → (rk' : RoomKeys) × (seal_room_message c fails name now random room text
            (some kp)
            (some rk)
            disk
          ≡ (refused not_recorded, some rk', disk))
        × (chain_part rk' ≡ chain_part rk)
  unfolding seal_room_message reserve_chain_positions reservation reserve_by seal_reserved
  seal_room_message-fails name now random room text kp rk disk ch e level fits = (
    withdraw_reservation ((ch.index + chain_reservation_block) % 2 ^ 32)
        (raise_reservation ((ch.index + chain_reservation_block) % 2 ^ 32) rk),
    ground (arith, e, level),
    withdraw_lem rk ch e level fits,
  )
