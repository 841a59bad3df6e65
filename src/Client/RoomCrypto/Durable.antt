-- ===== src/Client/RoomCrypto/Durable.antt =====
-- What a save leaves on disk, and what a restore takes from it.
use bencchat.Prelude.{
  ℕ, ◌+◌, ◌-◌, ◌^◌, ◌≤◌, ◌<◌, ◌≡◌, refl, ◌∙◌, arith, inl, inr, Bool, true, false, Option, none,
  some, [], ◌∷◌, ltb, if◌then◌else◌, zero, suc, ◌==◌, Bool-cases, length, All,
}
use native.Mathlib.Decide.{dec_lt}
use bencchat.Prelude.Bytes.{Bytes, IsByte}
use bencchat.Prelude.Outcome.{Result, ok, err}
use bencchat.E2ee.Crypto.{Crypto, IsCrypto}
use bencchat.E2ee.Ratchet.{Chain, view, step, step_times, advance_chain, next}
use bencchat.E2ee.ChainCodec.{CodecError, encode_chain, decode_chain, malformed, decode_chain_body}
use bencchat.E2ee.ChainCodec.RoundTrip.{IsWellFormed, decode-encode_chain}
use bencchat.Text.Ascii.{trim_prefix, cut_prefix, has_prefix, cut_at}
use bencchat.Client.RoomCrypto.{
  restore_out, RoomKeys, Saved, chain_reservation_block, stored_out, room_chain_state,
  restore_chain_state, apply_room_entry, mark_chain_stale,
}
use bencchat.Client.RoomCrypto.Send.{merged_room_entry, persist_room_chain}

-- The chain and the reservation that a record holds.
abbrev held_chain : Result CodecError Chain → ℕ → Option (Chain × ℕ)
held_chain (err _) n = none
held_chain (ok d) n = some (d, n)

unfoldable pub stored : Option Saved → Option (Chain × ℕ)
stored none = none
stored (some s) = held_chain (decode_chain s.out) s.reserved

abbrev pub chain_part : RoomKeys → Option Chain × ℕ
chain_part rk = (rk.out, rk.reserved_through)

-- A restore takes the stored chain, promised to where it stands, and keeps the room's own chain
-- only where none can be read.
abbrev pub restored : Option (Chain × ℕ) → RoomKeys → Option Chain × ℕ
restored none rk = (rk.out, rk.reserved_through)
restored (some (d, n)) rk = (some d, if ltb n d.index then d.index else n)

encode_chain_pos : (ch : Chain) → 0 < length (encode_chain ch)
unfolding encode_chain
encode_chain_pos ch = omega arith

stored-merged_full :
    (disk : Option Saved) (entry : Saved)
    → 0 < length entry.out
    → stored (some (merged_room_entry disk entry))
      ≡ held_chain (decode_chain entry.out) entry.reserved
unfolding stored merged_room_entry
stored-merged_full none entry h = refl
stored-merged_full (some prev) entry h =
    let full : (length entry.out == 0) ≡ false = ground arith in rw (full, merged_room_entry)

length_zero : (bs : Bytes) → (length bs == 0) ≡ true → bs ≡ []
length_zero [] h = refl
length_zero (b ∷ bs) h = absurd (ground arith)

-- No chain is read from an empty record.
decode_empty : (bs : Bytes) → bs ≡ [] → decode_chain bs ≡ err malformed
unfolding decode_chain decode_chain_body trim_prefix cut_prefix has_prefix cut_at
decode_empty [] h = refl
decode_empty (b ∷ bs) h = cc

stored-merged_empty :
    (disk : Option Saved) (entry : Saved)
    → entry.out ≡ []
    → stored (some (merged_room_entry disk entry)) ≡ stored disk
unfolding stored merged_room_entry
stored-merged_empty none entry h = rw (decode_empty entry.out h)
stored-merged_empty (some prev) entry h = elim (Bool-cases (length prev.out == 0)) [
  | inl e ↦ ground (arith, decode_empty entry.out h, decode_empty prev.out (length_zero prev.out e))
  | inr full ↦ ground (arith, full)
]

module _ (c : Crypto) (laws : IsCrypto c) where
  step_times_sizes :
      (n : ℕ) (s : Bytes)
      → length s ≡ 32
      → All IsByte s
      → (length (step_times c.hmac n s) ≡ 32) × All IsByte (step_times c.hmac n s)
  unfolding step_times step
  step_times_sizes zero s l b = (l, b)
  step_times_sizes (suc n) s l b =
      step_times_sizes n (step c.hmac s) (laws.hmac_length s _) (laws.hmac_bytes s _)

  -- One step and any number of steps keep a chain well formed.
  pub next-IsWellFormed :
      (ch : Chain)
      → IsWellFormed (view ch)
      → ch.index + 1 < 2 ^ 32
      → IsWellFormed (view (next c.hmac ch).2)
  unfolding next view step
  next-IsWellFormed ch w fits = record {
    id_length = w.id_length;
    id_digits = w.id_digits;
    state_length = laws.hmac_length ch.state _;
    state_bytes = laws.hmac_bytes ch.state _;
    index_range = omega arith;
  }

  -- The stored chain is the live one where it stands at its reservation, and is wound otherwise.
  stored_out_moved :
      (ch : Chain) (r : ℕ)
      → ch.index < r
      → r ≤ ch.index + chain_reservation_block
      → stored_out c.hmac ch r
        ≡ record { id = ch.id; state = step_times c.hmac (r - ch.index) ch.state; index = r }
  unfolding stored_out advance_chain
  stored_out_moved ch r lt near = ground arith

  pub stored_out_lem :
      (ch : Chain) (r : ℕ)
      → IsWellFormed (view ch)
      → ch.index ≤ r
      → r ≤ ch.index + chain_reservation_block
      → r < 2 ^ 32
      → ((stored_out c.hmac ch r).id ≡ ch.id)
        × ((stored_out c.hmac ch r).index ≡ r)
        × IsWellFormed (view (stored_out c.hmac ch r))
  unfolding view
  stored_out_lem ch r w le near fits = elim (dec_lt ch.index r) [
    | yes lt ↦
        let (l, b) = step_times_sizes (r - ch.index) ch.state w.state_length w.state_bytes in
        rw (stored_out_moved ch r lt near) (
          refl,
          refl,
          record {
            id_length = w.id_length;
            id_digits = w.id_digits;
            state_length = l;
            state_bytes = b;
            index_range = fits;
          },
        )
    | no ge ↦
        let still : stored_out c.hmac ch r ≡ ch = unfold stored_out advance_chain in ground arith in
        rw still (refl, omega arith, w)
  ]

  room_chain_state-some :
      (rk : RoomKeys) (ch : Chain)
      → rk.out ≡ some ch
      → ch.index ≤ rk.reserved_through
      → ((room_chain_state c.hmac rk).out ≡ encode_chain (stored_out c.hmac ch rk.reserved_through))
        × ((room_chain_state c.hmac rk).reserved ≡ rk.reserved_through)
  unfolding room_chain_state
  room_chain_state-some rk ch e le = rw (e, room_chain_state) (ground arith, ground arith)

  room_chain_state-none : (rk : RoomKeys) → rk.out ≡ none → (room_chain_state c.hmac rk).out ≡ []
  unfolding room_chain_state
  room_chain_state-none rk e = rw (e, room_chain_state)

  -- A save of a room with a chain keeps that chain, wound to where it was promised.
  pub stored-persist_some :
      (rk : RoomKeys) (disk : Option Saved) (ch : Chain)
      → rk.out ≡ some ch
      → IsWellFormed (view ch)
      → ch.index ≤ rk.reserved_through
      → rk.reserved_through ≤ ch.index + chain_reservation_block
      → rk.reserved_through < 2 ^ 32
      → stored (some (persist_room_chain c rk disk))
        ≡ some (stored_out c.hmac ch rk.reserved_through, rk.reserved_through)
  unfolding persist_room_chain
  stored-persist_some rk disk ch e w le near fits =
      let (o, r) = room_chain_state-some rk ch e le in
      let (_, _, w') = stored_out_lem ch rk.reserved_through w le near fits in
      stored-merged_full disk (room_chain_state c.hmac rk) (rw o (encode_chain_pos _))
      ∙ rw (o, r, decode-encode_chain (stored_out c.hmac ch rk.reserved_through) w')

  -- A save of a room without one keeps the chain that was on disk.
  pub stored-persist_none :
      (rk : RoomKeys) (disk : Option Saved)
      → rk.out ≡ none
      → stored (some (persist_room_chain c rk disk)) ≡ stored disk
  unfolding persist_room_chain
  stored-persist_none rk disk e =
      stored-merged_empty disk (room_chain_state c.hmac rk) (room_chain_state-none rk e)

  restore_out_lem :
      (r : Result CodecError Chain) (s : Saved) (rk : RoomKeys)
      → chain_part (restore_out c.hmac r s rk) ≡ restored (held_chain r s.reserved) rk
  unfolding restore_out
  restore_out_lem (ok d) s rk = refl
  restore_out_lem (err e) s rk = refl

  marked_lem :
      (b : Bool) (rk : RoomKeys)
      → chain_part (if b then mark_chain_stale rk else rk) ≡ chain_part rk
  unfolding mark_chain_stale
  marked_lem true rk = refl
  marked_lem false rk = refl

  restore_chain_state_lem :
      (s : Saved) (rk : RoomKeys)
      → chain_part (restore_chain_state c.hmac s rk) ≡ restored (stored (some s)) rk
  unfolding restore_chain_state stored
  restore_chain_state_lem s rk = elim (Bool-cases (length s.out == 0)) [
    | inl e ↦ ground (arith, decode_empty s.out (length_zero s.out e))
    | inr full ↦
        let marked : RoomKeys = record rk { encrypted = true } in
        ground (arith, restore_out_lem (decode_chain s.out) s marked)
  ]

  pub apply_room_entry_lem :
      (s : Saved) (rk : RoomKeys)
      → chain_part (apply_room_entry c.hmac s rk) ≡ restored (stored (some s)) rk
  unfolding apply_room_entry
  apply_room_entry_lem s rk =
      marked_lem s.stale (restore_chain_state c.hmac s rk) ∙ restore_chain_state_lem s rk
