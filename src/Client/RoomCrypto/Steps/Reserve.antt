-- ===== src/Client/RoomCrypto/Steps/Reserve.antt =====
-- reserveChainPositions keeps the room safe: the promise is raised, withdrawn or left.
use bencchat.Prelude.{
  true, Bool-cases, ℕ, ◌+◌, ◌%◌, ◌^◌, ◌≤◌, ◌<◌, ◌≡◌, ◌≢◌, refl, sym, subst, arith, Option, none,
  some, leb, Option-cases, inl, inr,
}
use native.Mathlib.Decide.{dec_lt}
use bencchat.E2ee.Crypto.{Crypto, IsCrypto}
use bencchat.E2ee.Ratchet.{Chain}
use bencchat.Client.RoomCrypto.{RoomKeys, Saved, chain_reservation_block, stored_out}
use bencchat.Client.RoomCrypto.Send.{
  Persist, absent, writes, fails, persist_room_chain, raise_reservation, withdraw_reservation,
  reserve_by, reserve_chain_positions, reservation,
}
use bencchat.Client.RoomCrypto.Durable.{
  chain_part, stored, stored-persist_some, stored-persist_none,
}
use bencchat.Client.RoomCrypto.Reuse.{Used, LiveOk, IsSafe, IsSafe-saved}
use bencchat.Client.RoomCrypto.Steps.{World}

abbrev pub room_part : Option RoomKeys → Option Chain × ℕ
room_part none = (none, 0)
room_part (some rk) = chain_part rk

abbrev pub IsSafeWorld : World → Type 0
IsSafeWorld w = IsSafe (room_part w.room) (stored w.disk) w.used

-- The promise is raised by a block where the block fits, and not at all where it does not.
pub raise_by_block :
    (rk : RoomKeys) (ch : Chain)
    → rk.reserved_through ≡ ch.index
    → ch.index < 2 ^ 32
    → (n : ℕ) × (raise_reservation ((ch.index + chain_reservation_block) % 2 ^ 32) rk
        ≡ record rk { reserved_through = n })
      × (ch.index ≤ n)
      × (n ≤ ch.index + chain_reservation_block)
      × (n < 2 ^ 32)
unfolding raise_reservation
raise_by_block rk ch level fits = elim (dec_lt (ch.index + chain_reservation_block) (2 ^ 32)) [
  | yes room ↦ (
    (ch.index + chain_reservation_block) % 2 ^ 32,
    ground (arith, level),
    omega arith,
    omega arith,
    omega arith,
  )
  | no full ↦ (rk.reserved_through, ground (arith, level), omega arith, omega arith, omega arith)
]

pub withdraw_lem :
    (rk : RoomKeys) (ch : Chain)
    → rk.out ≡ some ch
    → rk.reserved_through ≡ ch.index
    → ch.index < 2 ^ 32
    → chain_part (
        withdraw_reservation
          ((ch.index + chain_reservation_block) % 2 ^ 32)
          (raise_reservation ((ch.index + chain_reservation_block) % 2 ^ 32) rk))
      ≡ chain_part rk
unfolding withdraw_reservation raise_reservation
withdraw_lem rk ch e level fits = elim (dec_lt (ch.index + chain_reservation_block) (2 ^ 32)) [
  | yes room ↦ ground (arith, e, level)
  | no full ↦ ground (arith, e, level)
]

module _ (c : Crypto) (laws : IsCrypto c) where
  -- A save of a safe room is safe.
  pub persist-IsSafe :
      (rk : RoomKeys) (disk : Option Saved) (u : Used)
      → LiveOk rk.out rk.reserved_through u
      → IsSafe (none, 0) (stored disk) u
      → IsSafe (chain_part rk) (stored (some (persist_room_chain c rk disk))) u
  persist-IsSafe rk disk u live base = elim (Option-cases rk.out) [
    | inl e ↦
        let bare : IsSafe (none, rk.reserved_through) (stored disk) u = record {
          live = tt;
          kept = base.kept;
          promised = tt;
          distinct = base.distinct;
        } in
        subst (λ k. IsSafe (chain_part rk) k u) (sym (stored-persist_none c laws rk disk e))
          (subst (λ o. IsSafe (o, rk.reserved_through) (stored disk) u) (sym e) bare)
    | inr (ch, e) ↦
        let live' : LiveOk (some ch) rk.reserved_through u =
          subst (λ o. LiveOk o rk.reserved_through u) e live in
        let (wf, below, le, near, fits) = live' in
        subst (λ k. IsSafe (chain_part rk) k u)
          (sym (stored-persist_some c laws rk disk ch e wf le near fits))
          (subst
            (λ o.
              IsSafe (o, rk.reserved_through)
                (some (stored_out c.hmac ch rk.reserved_through, rk.reserved_through)) u)
            (sym e) (IsSafe-saved c laws ch rk.reserved_through u live' base.distinct))
  ]

  reserve_by-IsSafe :
      (hook : Persist) (rk : RoomKeys) (disk : Option Saved) (u : Used) (ch : Chain)
      → hook ≢ absent
      → rk.out ≡ some ch
      → leb rk.reserved_through ch.index ≡ true
      → IsSafe (chain_part rk) (stored disk) u
      → IsSafe
          (chain_part (reserve_by c hook ((ch.index + chain_reservation_block) % 2 ^ 32) rk disk).1)
          (stored (reserve_by c hook ((ch.index + chain_reservation_block) % 2 ^ 32) rk disk).2)
          u
  unfolding reserve_by
  reserve_by-IsSafe absent rk disk u ch hk e spent s = absurd (hk refl)
  reserve_by-IsSafe writes rk disk u ch hk e spent s =
      let s' : IsSafe (some ch, rk.reserved_through) (stored disk) u =
        subst (λ o. IsSafe (o, rk.reserved_through) (stored disk) u) e s in
      let (wf, below, low, near, fits) = s'.live in
      let level : rk.reserved_through ≡ ch.index = ground arith in
      let (n, raised, low', near', fits') = raise_by_block rk ch level (omega arith) in
      let live : LiveOk rk.out n u =
        subst (λ o. LiveOk o n u) (sym e) (wf, below, low', near', fits') in
      let base : IsSafe (none, 0) (stored disk) u = record {
        live = tt;
        kept = s.kept;
        promised = tt;
        distinct = s.distinct;
      } in
      subst (λ r. IsSafe (chain_part r) (stored (some (persist_room_chain c r disk))) u)
        (sym raised) (persist-IsSafe (record rk { reserved_through = n }) disk u live base)
  reserve_by-IsSafe fails rk disk u ch hk e spent s =
      let s' : IsSafe (some ch, rk.reserved_through) (stored disk) u =
        subst (λ o. IsSafe (o, rk.reserved_through) (stored disk) u) e s in
      let (wf, below, low, near, fits) = s'.live in
      let level : rk.reserved_through ≡ ch.index = ground arith in
      subst (λ p. IsSafe p (stored disk) u) (sym (withdraw_lem rk ch e level (omega arith))) s

  pub reserve_chain_positions-IsSafe :
      (hook : Persist) (rk : RoomKeys) (disk : Option Saved) (u : Used)
      → hook ≢ absent
      → IsSafe (chain_part rk) (stored disk) u
      → IsSafe
          (chain_part (reserve_chain_positions c hook rk disk).1)
          (stored (reserve_chain_positions c hook rk disk).2)
          u
  unfolding reserve_chain_positions reservation
  reserve_chain_positions-IsSafe hook rk disk u h s = elim (Option-cases rk.out) [
    | inl e ↦
        let idle : reserve_chain_positions c hook rk disk ≡ (true, rk, disk) = ground (arith, e) in
        rw idle s
    | inr (ch, e) ↦ elim (Bool-cases (leb rk.reserved_through ch.index)) [
      | inl low ↦
          let asks : reserve_chain_positions c hook rk disk
              ≡ reserve_by c hook ((ch.index + chain_reservation_block) % 2 ^ 32) rk disk =
            ground (arith, e, low) in
          rw asks (reserve_by-IsSafe hook rk disk u ch h e low s)
      | inr high ↦
          let idle : reserve_chain_positions c hook rk disk ≡ (true, rk, disk) =
            ground (arith, e, high) in
          rw idle s
    ]
  ]
