-- ===== src/Client/RoomCrypto/Steps/Safety.antt =====
-- Every step of a room's history keeps it safe, so no position is sealed at twice.
use bencchat.Client.RoomCrypto.Trim.{prune_chain_views}
use bencchat.Client.RoomCrypto.{
  install_chain, RoomKeys, Saved, ensure, usable_chain, ensure_outbound_chain, mark_chain_shared,
  mark_chain_stale, learn_chain_view,
}
use bencchat.Prelude.{
  ℕ, ◌≡◌, ◌≢◌, sym, subst, arith, Option, none, some, [], ◌∷◌, All, Option-cases, inl, inr,
}
use bencchat.Prelude.Bytes.{Bytes}
use bencchat.E2ee.Crypto.{Crypto, IsCrypto}
use bencchat.E2ee.Ratchet.{Chain, view}
use bencchat.E2ee.ChainCodec.RoundTrip.{IsWellFormed}
use bencchat.Client.RoomCrypto.Durable.{chain_part, stored, apply_room_entry_lem}
use bencchat.Client.RoomCrypto.Reuse.{Used, Below, Distinct, IsSafe, IsSafe-restored}
use bencchat.Client.RoomCrypto.Steps.{
  World, start, restart, save_room, Step, mint, share, go_stale, learn, attempt, save, crash, Reach,
  here, then_step,
}
use bencchat.Client.RoomCrypto.Steps.Reserve.{room_part, IsSafeWorld, persist-IsSafe}
use bencchat.Client.RoomCrypto.Steps.Sealing.{send-IsSafe}

ensure-IsSafe :
    (state : Option RoomKeys) (k : Option (Chain × ℕ)) (u : Used)
    → IsSafe (room_part state) k u
    → IsSafe (chain_part (ensure state)) k u
unfolding ensure
ensure-IsSafe none k u s = s
ensure-IsSafe (some rk) k u s = s

Below-Fresh : (id : Bytes) (n : ℕ) (u : Used) → All (λ p. p.0 ≢ id) u → Below id n u
Below-Fresh id n [] f = tt
Below-Fresh id n (p ∷ u) f = (λ e. absurd (f.0 e), Below-Fresh id n u f.1)

install-IsSafe :
    (ch : Chain) (rk : RoomKeys) (k : Option (Chain × ℕ)) (u : Used)
    → IsWellFormed (view ch)
    → ch.index ≡ 0
    → All (λ p. p.0 ≢ ch.id) u
    → IsSafe (chain_part rk) k u
    → IsSafe (chain_part (ensure_outbound_chain (some ch) rk).1) k u
unfolding ensure_outbound_chain install_chain
install-IsSafe ch rk k u wf zero_index fresh s = elim (Option-cases (usable_chain rk)) [
  | inr (c, e) ↦
      let kept : (ensure_outbound_chain (some ch) rk).1 ≡ rk = ground (arith, e) in rw kept s
  | inl e ↦
      let made : chain_part (ensure_outbound_chain (some ch) rk).1
          ≡ chain_part (record rk { out = some ch; reserved_through = 0 }) =
        ground (arith, e) in
      subst (λ p. IsSafe p k u) (sym made)
        (record {
          live = (wf, Below-Fresh ch.id ch.index u fresh, omega arith, omega arith, omega arith);
          kept = s.kept;
          promised = λ h. absurd (omega arith);
          distinct = s.distinct;
        })
]

module _ (c : Crypto) (laws : IsCrypto c) where
  restart-IsSafe :
      (disk : Option Saved) (u : Used)
      → IsSafe (none, 0) (stored disk) u
      → IsSafe (room_part (restart c.hmac disk)) (stored disk) u
  unfolding restart ensure
  restart-IsSafe none u s = s
  restart-IsSafe (some d) u s =
      rw (apply_room_entry_lem c laws d (ensure none))
        (IsSafe-restored c laws (ensure none) (stored (some d)) u s)

  Step-IsSafe : {w v : World} → Step c w v → IsSafeWorld w → IsSafeWorld v
  unfolding mark_chain_shared mark_chain_stale learn_chain_view save_room prune_chain_views
  Step-IsSafe (mint w ch wf zero_index fresh) s =
      install-IsSafe ch (ensure w.room) (stored w.disk) w.used wf zero_index fresh
        (ensure-IsSafe w.room (stored w.disk) w.used s)
  Step-IsSafe (share w) s = ensure-IsSafe w.room (stored w.disk) w.used s
  Step-IsSafe (go_stale w) s = ensure-IsSafe w.room (stored w.disk) w.used s
  Step-IsSafe (learn w v) s = ensure-IsSafe w.room (stored w.disk) w.used s
  Step-IsSafe (attempt w hook name now random room text signer h) s =
      send-IsSafe c laws hook name now random room text signer w h s
  Step-IsSafe (save w rk e) s =
      let s' : IsSafe (chain_part rk) (stored w.disk) w.used =
        subst (λ r. IsSafe (room_part r) (stored w.disk) w.used) e s in
      persist-IsSafe c laws (prune_chain_views c.hmac rk).0 w.disk w.used s'.live
        (record { live = tt; kept = s.kept; promised = tt; distinct = s.distinct })
  Step-IsSafe (crash w) s =
      restart-IsSafe w.disk w.used
        (record { live = tt; kept = s.kept; promised = tt; distinct = s.distinct })

  Reach-IsSafe : {w v : World} → Reach c w v → IsSafeWorld w → IsSafeWorld v
  Reach-IsSafe here s = s
  Reach-IsSafe (then_step r t) s = Step-IsSafe t (Reach-IsSafe r s)

  -- Whatever happens to a room from its start, one send at a time (sends that succeed, fail or are
  -- refused, durable writes that fail, saves, crashes and restarts between them, rotations, shares,
  -- views learned), no two of the envelopes it sent name the same position of the same chain. Sends
  -- have a durable-write hook, and a minted chain has a name that no envelope has named yet.
  pub no_position_twice : {w : World} → Reach c start w → Distinct w.used
  unfolding stored
  no_position_twice r =
      (Reach-IsSafe r (record { live = tt; kept = tt; promised = tt; distinct = tt })).distinct
