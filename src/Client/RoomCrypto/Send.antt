-- ===== src/Client/RoomCrypto/Send.antt =====
-- sealRoomMessage and reserveChainPositions: one send, with the promise to disk that comes first.
-- The room's disk record is what persistRoomChain last wrote.
use bencchat.Prelude.{
  ℕ, ◌+◌, ◌-◌, ◌%◌, ◌^◌, Bool, true, false, ◌&&◌, not, Option, none, some, List, [], ◌∷◌, ltb, leb,
  ◌==◌, if◌then◌else◌, length,
}
use bencchat.Prelude.Bytes.{Bytes}
use bencchat.Prelude.Outcome.{Result, ok, err}
use bencchat.Prelude.Assoc.{lookup, insert}
use bencchat.E2ee.Crypto.{Crypto, SigningKeyPair}
use bencchat.E2ee.Ratchet.{Chain}
use bencchat.E2ee.RoomChain.{SealError, seal_room_chain}
use bencchat.E2ee.RoomKey.{seal_room, seal_room_signed}
use bencchat.Client.RoomCrypto.{
  RoomKeys, Saved, chain_reservation_block, position_of, note_position, usable_chain,
  room_chain_state,
}

-- mergedRoomEntry, as far as it is about chains: what lives wins, and what only the disk has stays.
merge_views : List (Bytes × Bytes) → List (Bytes × Bytes) → List (Bytes × Bytes)
merge_views [] live = live
merge_views ((id, v) ∷ m) live =
    merge_views m (elim (lookup id live) [ none ↦ insert id v live | some _ ↦ live ])

merge_seen : List (Bytes × ℕ) → List (Bytes × ℕ) → List (Bytes × ℕ)
merge_seen [] live = live
merge_seen ((id, n) ∷ m) live =
    merge_seen m (if ltb (position_of id live) n then insert id n live else live)

merge_out : Saved → Saved → Saved
merge_out prev entry =
    if length entry.out == 0 && not (length prev.out == 0)
    then record entry {
      out = prev.out;
      reserved = prev.reserved;
      shared = prev.shared;
      stale = prev.stale;
    }
    else entry

unfoldable pub merged_room_entry : Option Saved → Saved → Saved
unfolding merge_views merge_seen merge_out
merged_room_entry none entry = entry
merged_room_entry (some prev) entry = record (merge_out prev entry) {
  views = merge_views prev.views entry.views;
  seen = merge_seen prev.seen entry.seen;
}

-- The durable-write hook: not installed, a write that reaches the disk, or one that fails.
pub data Persist : Type 0 where
  absent writes fails : Persist

pub data Refusal : Type 0 where
  not_recorded not_reserved not_encrypted no_key : Refusal

pub data Sent : Type 0 where
  sealed : Bytes → Sent
  plain : Bytes → Sent
  refused : Refusal → Sent

-- `need` and `want`, read in the first critical section.
unfoldable pub reservation : RoomKeys → Option ℕ
reservation rk = elim rk.out [
  | none ↦ none
  | some c ↦
      if leb rk.reserved_through c.index
      then some ((c.index + chain_reservation_block) % 2 ^ 32)
      else none
]

unfoldable pub raise_reservation : ℕ → RoomKeys → RoomKeys
raise_reservation want rk =
    if ltb rk.reserved_through want then record rk { reserved_through = want } else rk

-- After a failed write. (The source reads `rk.out.Index` here: the chain is there.)
unfoldable pub withdraw_reservation : ℕ → RoomKeys → RoomKeys
withdraw_reservation want rk = elim rk.out [
  | none ↦ rk
  | some c ↦ if rk.reserved_through == want then record rk { reserved_through = c.index } else rk
]

unfoldable pub record_use : Chain → Option Chain → RoomKeys → RoomKeys
record_use used moved rk = record rk {
  out = moved;
  seen = elim moved [
    | none ↦ rk.seen
    | some c ↦ note_position c.id ((c.index + 2 ^ 32 - 1) % 2 ^ 32) rk.seen
  ];
}

module _ (c : Crypto) where
  unfoldable pub persist_room_chain : RoomKeys → Option Saved → Saved
  persist_room_chain rk disk = merged_room_entry disk (room_chain_state c.hmac rk)

  unfoldable pub reserve_by : Persist → ℕ → RoomKeys → Option Saved → Bool × RoomKeys × Option Saved
  reserve_by absent want rk disk = (true, raise_reservation want rk, disk)
  reserve_by writes want rk disk =
      (true, raise_reservation want rk, some (persist_room_chain (raise_reservation want rk) disk))
  reserve_by fails want rk disk =
      (false, withdraw_reservation want (raise_reservation want rk), disk)

  -- Whether the promise stands, the room and the disk.
  unfoldable pub reserve_chain_positions :
      Persist → RoomKeys → Option Saved → Bool × RoomKeys × Option Saved
  unfolding reserve_by
  reserve_chain_positions hook rk disk = elim (reservation rk) [
    | none ↦ (true, rk, disk)
    | some want ↦ reserve_by hook want rk disk
  ]

  -- The shared key, or the refusal, or plain text in a room that is not encrypted.
  unfoldable pub seal_by_key :
      Option Bytes
      → ℕ
      → Option Bytes
      → Bytes
      → Bytes
      → Option SigningKeyPair
      → Option RoomKeys
      → Sent
  seal_by_key name now random room text signer none = plain text
  seal_by_key name now random room text signer (some rk) =
      if not rk.has_current
      then (if rk.encrypted then refused no_key else plain text)
      else elim signer [
        | none ↦ elim (seal_room c random text rk.current) [
          | none ↦ refused not_encrypted
          | some env ↦ sealed env
        ]
        | some kp ↦ elim (seal_room_signed c name now random room text rk.current kp) [
          | none ↦ refused not_encrypted
          | some env ↦ sealed env
        ]
      ]

  -- The second critical section. `none`: no usable chain, and the shared key is tried.
  unfoldable pub sealed_with :
      Chain → RoomKeys → Result SealError Bytes × Option Chain → Sent × RoomKeys
  sealed_with chain rk (ok env, moved) = (sealed env, record_use chain moved rk)
  sealed_with chain rk (err _, moved) = (refused not_encrypted, record rk { out = moved })

  unfoldable pub seal_by_chain :
      Option Bytes
      → ℕ
      → Option Bytes
      → Bytes
      → Bytes
      → SigningKeyPair
      → RoomKeys
      → Option (Sent × RoomKeys)
  unfolding sealed_with
  seal_by_chain name now random room text kp rk = elim (usable_chain rk) [
    | none ↦ none
    | some chain ↦
        if not rk.chain_shared
        then none
        else if leb rk.reserved_through chain.index
        then some (refused not_reserved, rk)
        else some
            (sealed_with chain rk (seal_room_chain c name now random room text (some chain) kp))
  ]

  unfoldable pub seal_reserved :
      Option Bytes
      → ℕ
      → Option Bytes
      → Bytes
      → Bytes
      → SigningKeyPair
      → Bool × RoomKeys × Option Saved
      → Sent × Option RoomKeys × Option Saved
  seal_reserved name now random room text kp (false, rk, disk) =
      (refused not_recorded, some rk, disk)
  seal_reserved name now random room text kp (true, rk, disk) =
      elim (seal_by_chain name now random room text kp rk) [
        | some (sent, rk') ↦ (sent, some rk', disk)
        | none ↦ (seal_by_key name now random room text (some kp) (some rk), some rk, disk)
      ]

  unfoldable pub seal_room_message :
      Persist
      → Option Bytes
      → ℕ
      → Option Bytes
      → Bytes
      → Bytes
      → Option SigningKeyPair
      → Option RoomKeys
      → Option Saved
      → Sent × Option RoomKeys × Option Saved
  unfolding seal_reserved
  seal_room_message hook name now random room text none state disk =
      (seal_by_key name now random room text none state, state, disk)
  seal_room_message hook name now random room text (some kp) none disk =
      (seal_by_key name now random room text (some kp) none, none, disk)
  seal_room_message hook name now random room text (some kp) (some rk) disk =
      seal_reserved name now random room text kp (reserve_chain_positions hook rk disk)
