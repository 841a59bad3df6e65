-- ===== src/Client/RoomCrypto.antt =====
-- internal/client/room_e2ee.go: the group encryption state of one room (one entry of
-- `roomCrypto.rooms`), and the chain part of what app_room_e2ee.go writes to disk.
pub mod Send
pub mod Trim
pub mod Durable
pub mod Reuse
pub mod Steps
pub mod Readers
pub mod Newcomers
pub mod Pruning
use bencchat.Prelude.{
  ℕ, zero, suc, ◌+◌, ◌-◌, ◌%◌, ◌^◌, Bool, true, false, ◌&&◌, ◌||◌, not, Option, none, some, List,
  [], ◌∷◌, ◌++◌, ltb, leb, ◌==◌, if◌then◌else◌, length,
}
use bencchat.Prelude.Bytes.{Bytes, bytes_eq}
use bencchat.Prelude.Outcome.{Result, ok, err}
use bencchat.Prelude.Assoc.{lookup, insert}
use bencchat.E2ee.Ratchet.{Chain, ChainView, view, advance_chain, advance, continues}
use bencchat.E2ee.ChainCodec.{
  CodecError, encode_chain, encode_chain_view, decode_chain, decode_chain_view,
}

abbrev pub chain_reservation_block : ℕ
chain_reservation_block = 64

abbrev pub chain_retention : ℕ
chain_retention = 2000

pub record RoomKeys : Type 0 where
  pub encrypted : Bool
  pub current : Bytes
  pub has_current : Bool
  pub all : List (Bytes × Bytes)
  pub out : Option Chain
  pub chain_shared : Bool
  pub reserved_through : ℕ
  pub stale_chain : Bool
  pub views : List (Bytes × ChainView)
  pub seen : List (Bytes × ℕ)

abbrev pub empty_room : RoomKeys
empty_room = record {
  encrypted = false;
  current = [];
  has_current = false;
  all = [];
  out = none;
  chain_shared = false;
  reserved_through = 0;
  stale_chain = false;
  views = [];
  seen = [];
}

-- The entry of a room, made if it is not there.
unfoldable pub ensure : Option RoomKeys → RoomKeys
ensure none = empty_room
ensure (some rk) = rk

-- `rk.seen[id]`: 0 where there is no entry.
unfoldable pub position_of : Bytes → List (Bytes × ℕ) → ℕ
position_of id seen = elim (lookup id seen) [ none ↦ 0 | some n ↦ n ]

unfoldable pub note_position : Bytes → ℕ → List (Bytes × ℕ) → List (Bytes × ℕ)
note_position id index seen = if leb (position_of id seen) index then insert id index seen else seen

unfoldable pub note_chain_position : Bytes → ℕ → RoomKeys → RoomKeys
note_chain_position id index rk = record rk { seen = note_position id index rk.seen }

unfoldable pub mark_chain_shared : RoomKeys → RoomKeys
mark_chain_shared rk = record rk { chain_shared = true }

unfoldable pub mark_chain_stale : RoomKeys → RoomKeys
mark_chain_stale rk = record rk { stale_chain = true }

unfoldable pub usable_chain : RoomKeys → Option Chain
usable_chain rk = if rk.stale_chain then none else rk.out

-- The second critical section of EnsureOutboundChain, which looks again before it installs.
unfoldable pub install_chain : Chain → RoomKeys → (ChainView × Bool) × RoomKeys
unfolding usable_chain
install_chain chain rk = elim (usable_chain rk) [
  | some c ↦ ((view c, false), rk)
  | none ↦ (
    (view chain, true),
    record rk {
      out = some chain;
      stale_chain = false;
      chain_shared = false;
      reserved_through = 0;
      views = insert chain.id (view chain) rk.views;
    },
  )
]

-- `minted` is what NewChain gives. It is asked for only where a chain is needed.
unfoldable pub ensure_outbound_chain :
    Option Chain → RoomKeys → Option (ChainView × Bool) × RoomKeys
unfolding install_chain
ensure_outbound_chain minted rk = elim (usable_chain rk) [
  | some c ↦ (some (view c, false), rk)
  | none ↦ elim minted [
    | none ↦ (none, rk)
    | some chain ↦ (some (install_chain chain rk).0, (install_chain chain rk).1)
  ]
]

-- What is written to disk for a room's chains.
pub record Saved : Type 0 where
  pub out : Bytes
  pub views : List (Bytes × Bytes)
  pub seen : List (Bytes × ℕ)
  pub reserved : ℕ
  pub shared : Bool
  pub stale : Bool

encode_views : List (Bytes × ChainView) → List (Bytes × Bytes)
encode_views [] = []
encode_views ((id, v) ∷ m) = (id, encode_chain_view v) ∷ encode_views m

module _ (hmac : Bytes → Bytes → Bytes) where
  -- The stored chain stands at the reservation, if it can be wound there.
  unfoldable pub stored_out : Chain → ℕ → Chain
  stored_out c reserved = (advance_chain hmac c reserved).0

  unfoldable pub room_chain_state : RoomKeys → Saved
  unfolding encode_views stored_out
  room_chain_state rk = elim rk.out [
    | none ↦ record {
      out = [];
      views = encode_views rk.views;
      seen = rk.seen;
      reserved = 0;
      shared = false;
      stale = rk.stale_chain;
    }
    | some c ↦
        let reserved = if ltb rk.reserved_through c.index then c.index else rk.reserved_through in
        record {
          out = encode_chain (stored_out c reserved);
          views = encode_views rk.views;
          seen = rk.seen;
          reserved = reserved;
          shared = rk.chain_shared;
          stale = rk.stale_chain;
        }
  ]

  -- The rule by which an offered view replaces a held one.
  unfoldable pub accept_view : ChainView → List (Bytes × ChainView) → List (Bytes × ChainView)
  accept_view v views = elim (lookup v.id views) [
    | none ↦ insert v.id v views
    | some have ↦
        if leb have.index v.index
        then views
        else if not (continues hmac v have)
        then views
        else insert v.id v views
  ]

  unfoldable pub learn_chain_view : ChainView → RoomKeys → RoomKeys
  learn_chain_view v rk = record rk { encrypted = true; views = accept_view v rk.views }

  -- One round of the loop over the stored views.
  restore_view : Bytes → Bytes → List (Bytes × ChainView) → List (Bytes × ChainView)
  restore_view id text views = elim (decode_chain_view text) [
    | err _ ↦ views
    | ok v ↦ if not (bytes_eq v.id id) then views else accept_view v views
  ]

  restore_views : List (Bytes × Bytes) → List (Bytes × ChainView) → List (Bytes × ChainView)
  restore_views [] views = views
  restore_views ((id, text) ∷ m) views = restore_views m (restore_view id text views)

  restore_seen : List (Bytes × ℕ) → List (Bytes × ℕ) → List (Bytes × ℕ)
  restore_seen [] seen = seen
  restore_seen ((id, n) ∷ m) seen =
      restore_seen m (if ltb (position_of id seen) n then insert id n seen else seen)

  restore_out : Result CodecError Chain → Saved → RoomKeys → RoomKeys
  restore_out (err _) s rk = rk
  restore_out (ok chain) s rk = record rk {
    out = some chain;
    chain_shared = s.shared;
    reserved_through = if ltb s.reserved chain.index then chain.index else s.reserved;
    views = insert chain.id (view chain) rk.views;
  }

  unfoldable pub restore_chain_state : Saved → RoomKeys → RoomKeys
  unfolding restore_out restore_views restore_view restore_seen
  restore_chain_state s rk =
      let marked : RoomKeys = record rk { encrypted = true } in
      let chained =
        if length s.out == 0 then marked else restore_out (decode_chain s.out) s marked in
      record chained {
        views = restore_views s.views chained.views;
        seen = restore_seen s.seen chained.seen;
      }

  -- applyRoomEntry: the chain state, and the mark that it is to be replaced.
  unfoldable pub apply_room_entry : Saved → RoomKeys → RoomKeys
  apply_room_entry s rk =
      if s.stale then mark_chain_stale (restore_chain_state s rk) else restore_chain_state s rk
