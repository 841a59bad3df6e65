-- ===== src/Client/RoomCrypto/Steps.antt =====
-- One room over time: sends, saves, restarts and rotations, in any order.
pub mod Reserve
pub mod Sealing
pub mod Safety
pub mod Availability
pub mod Overlap
use bencchat.Client.RoomCrypto.Trim.{prune_chain_views}
use bencchat.Prelude.{
  ℕ, ◌+◌, ◌^◌, ◌<◌, ◌≡◌, ◌≢◌, Bool, true, false, Option, none, some, List, [], ◌∷◌, All,
}
use bencchat.Prelude.Bytes.{Bytes}
use bencchat.E2ee.Crypto.{Crypto, SigningKeyPair}
use bencchat.E2ee.Ratchet.{Chain, ChainView, view}
use bencchat.E2ee.ChainCodec.RoundTrip.{IsWellFormed}
use bencchat.E2ee.RoomChain.{room_envelope_chain}
use bencchat.Client.RoomCrypto.{
  RoomKeys, Saved, chain_reservation_block, ensure, ensure_outbound_chain, mark_chain_shared,
  mark_chain_stale, learn_chain_view, apply_room_entry,
}
use bencchat.Client.RoomCrypto.Send.{
  Persist, absent, Sent, sealed, plain, refused, persist_room_chain, seal_room_message,
}
use bencchat.Client.RoomCrypto.Durable.{stored}
use bencchat.Client.RoomCrypto.Reuse.{Used}

-- The room in memory, its record on disk, and every position that a sent ciphertext names.
pub record World : Type 0 where
  pub room : Option RoomKeys
  pub disk : Option Saved
  pub used : Used

abbrev pub start : World
start = record { room = none; disk = none; used = [] }

-- What goes out is read as its recipients read it.
unfoldable pub log_sent : Sent → Used → Used
log_sent (sealed env) u = elim (room_envelope_chain env) [ none ↦ u | some p ↦ p ∷ u ]
log_sent (plain text) u = u
log_sent (refused why) u = u

unfoldable pub restart : (Bytes → Bytes → Bytes) → Option Saved → Option RoomKeys
restart hmac none = none
restart hmac (some s) = some (apply_room_entry hmac s (ensure none))

-- saveRoomKeys: views are wound forward before they reach the disk.
unfoldable pub save_room : Crypto → RoomKeys → Option Saved → RoomKeys × Option Saved
save_room c rk disk =
    let pruned = (prune_chain_views c.hmac rk).0 in
    (pruned, some (persist_room_chain c pruned disk))

-- The name of a chain occurs nowhere yet.
abbrev pub Fresh : Bytes → World → Type 0
Fresh id w = All (λ p. p.0 ≢ id) w.used

module _ (c : Crypto) where
  unfoldable pub send :
      Persist
      → Option Bytes
      → ℕ
      → Option Bytes
      → Bytes
      → Bytes
      → Option SigningKeyPair
      → World
      → World
  send hook name now random room text signer w =
      let (sent, state, disk) =
        seal_room_message c hook name now random room text signer w.room w.disk in
      record { room = state; disk = disk; used = log_sent sent w.used }

  -- What can happen next. A minted chain stands at 0 under a random name that is new.
  pub data Step : World → World → Type 0 where
    mint :
        (w : World) (ch : Chain)
        → IsWellFormed (view ch)
        → ch.index ≡ 0
        → Fresh ch.id w
        → Step w (record w { room = some (ensure_outbound_chain (some ch) (ensure w.room)).1 })
    share : (w : World) → Step w (record w { room = some (mark_chain_shared (ensure w.room)) })
    go_stale : (w : World) → Step w (record w { room = some (mark_chain_stale (ensure w.room)) })
    learn :
        (w : World) (v : ChainView)
        → Step w (record w { room = some (learn_chain_view c.hmac v (ensure w.room)) })
    attempt :
        (w : World) (hook : Persist) (name : Option Bytes) (now : ℕ) (random : Option Bytes)
        (room text : Bytes) (signer : Option SigningKeyPair)
        → hook ≢ absent
        → Step w (send hook name now random room text signer w)
    save :
        (w : World) (rk : RoomKeys)
        → w.room ≡ some rk
        → Step w
            (record w { room = some (save_room c rk w.disk).0; disk = (save_room c rk w.disk).1 })
    crash : (w : World) → Step w (record w { room = restart c.hmac w.disk })

  pub data Reach (w : World) : World → Type 0 where
    here : Reach w w
    then_step : {v u : World} → Reach w v → Step v u → Reach w u
