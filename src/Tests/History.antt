-- ===== src/Tests/History.antt =====
-- A room from its first chain over a crash to its second message.
use bencchat.Prelude.{false, [], ◌<◌, ◌≡◌, ◌≢◌, refl, arith, Option, some, none, true}
use bencchat.Prelude.Bytes.{Bytes}
use bencchat.Text.Ascii.{bytes, is_hex}
use bencchat.E2ee.Ratchet.{Chain, view, next}
use bencchat.E2ee.ChainCodec.RoundTrip.{IsWellFormed, decode-encode_chain}
use bencchat.E2ee.RoomChain.{envelope_text}
use bencchat.Client.RoomCrypto.{
  RoomKeys, Saved, empty_room, ensure, ensure_outbound_chain, mark_chain_shared,
}
use bencchat.Client.RoomCrypto.Durable.{chain_part, stored}
use bencchat.Client.RoomCrypto.Reuse.{Distinct}
use bencchat.Client.RoomCrypto.Send.{
  absent, writes, fails, sealed, refused, not_recorded, seal_room_message, raise_reservation,
}
use bencchat.Client.RoomCrypto.Steps.{
  World, start, restart, send, Reach, mint, share, attempt, crash, here, then_step,
}
use bencchat.Client.RoomCrypto.Steps.Safety
use bencchat.Client.RoomCrypto.Steps.Overlap
use bencchat.Client.RoomCrypto.Steps.Reserve.{room_part}
use bencchat.E2ee.ChainCodec.{encode_chain}
use bencchat.Client.RoomCrypto.Steps.Availability
use bencchat.Tests.Toy.{fill, toy, toy-IsCrypto, key_pair}

abbrev chain : Chain
chain = record { id = bytes "00112233445566ff"; state = fill 32 9; index = 0 }

chain-IsWellFormed : IsWellFormed (view chain)
unfolding view is_hex
chain-IsWellFormed = record {
  id_length = refl;
  id_digits = ground arith;
  state_length = refl;
  state_bytes = omega arith;
  index_range = omega arith;
}

writes-ne-absent : writes ≢ absent
writes-ne-absent e = cc

abbrev minted : World
minted = record start { room = some (ensure_outbound_chain (some chain) (ensure none)).1 }

abbrev shared : World
shared = record minted { room = some (mark_chain_shared (ensure minted.room)) }

abbrev sent : World
sent =
    send toy writes (some (fill 16 5)) 9 (some (fill 24 6)) (bytes "lobby") (bytes "hello")
      (some key_pair) shared

abbrev crashed : World
crashed = record sent { room = restart toy.hmac sent.disk }

abbrev sent_again : World
sent_again =
    send toy writes (some (fill 16 6)) 10 (some (fill 24 7)) (bytes "lobby") (bytes "again")
      (some key_pair) crashed

history : Reach toy start sent_again
history =
    then_step
      (then_step
        (then_step
          (then_step (then_step here (mint start chain chain-IsWellFormed refl tt)) (share minted))
          (attempt shared writes (some (fill 16 5)) 9 (some (fill 24 6)) (bytes "lobby")
            (bytes "hello") (some key_pair) writes-ne-absent))
        (crash sent))
      (attempt crashed writes (some (fill 16 6)) 10 (some (fill 24 7)) (bytes "lobby")
        (bytes "again") (some key_pair) writes-ne-absent)

no_position_twice_example : Distinct sent_again.used
no_position_twice_example = Safety.no_position_twice toy toy-IsCrypto history

abbrev ready : RoomKeys
ready = record empty_room { encrypted = true; out = some chain; chain_shared = true }

seal_room_message-writes_example :
    (box : Bytes) × (rk' : RoomKeys) × (disk' : Option Saved) × (seal_room_message toy writes
        (some (fill 16 5))
        9
        (some (fill 24 6))
        (bytes "lobby")
        (bytes "hello")
        (some key_pair)
        (some ready)
        none
      ≡ (sealed (envelope_text chain.id chain.index box), some rk', disk'))
    × (rk'.out ≡ some (next toy.hmac chain).2)
    × (chain.index < rk'.reserved_through)
seal_room_message-writes_example =
    Availability.seal_room_message-writes toy (fill 16 5) 9 (fill 24 6) (bytes "lobby")
      (bytes "hello") key_pair ready none chain refl refl refl (omega arith) (omega arith)

seal_room_message-fails_example :
    (rk' : RoomKeys) × (seal_room_message toy fails
        (some (fill 16 5))
        9
        (some (fill 24 6))
        (bytes "lobby")
        (bytes "hello")
        (some key_pair)
        (some ready)
        none
      ≡ (refused not_recorded, some rk', none))
    × (chain_part rk' ≡ chain_part ready)
seal_room_message-fails_example =
    Availability.seal_room_message-fails toy (some (fill 16 5)) 9 (some (fill 24 6)) (bytes "lobby")
      (bytes "hello") key_pair ready none chain refl refl (omega arith)

-- The disk as a full use of a block leaves it.
abbrev on_disk : Option Saved
on_disk = some (record {
  out = encode_chain chain;
  views = [];
  seen = [];
  reserved = 0;
  shared = true;
  stale = false;
})

on_disk-stored : stored on_disk ≡ some (chain, 0)
unfolding stored
on_disk-stored = rw (decode-encode_chain chain chain-IsWellFormed)

seal_room_message-unwritten_example :
    (box : Bytes) × (rk' : RoomKeys) × (seal_room_message toy writes
        (some (fill 16 5))
        9
        (some (fill 24 6))
        (bytes "lobby")
        (bytes "hello")
        (some key_pair)
        (some (raise_reservation 64 ready))
        on_disk
      ≡ (sealed (envelope_text chain.id chain.index box), some rk', on_disk))
    × ((room_part (restart toy.hmac on_disk)).0 ≡ some chain)
seal_room_message-unwritten_example =
    Overlap.seal_room_message-unwritten toy toy-IsCrypto writes (fill 16 5) 9 (fill 24 6)
      (bytes "lobby") (bytes "hello") key_pair ready on_disk chain 0 refl refl refl refl
      (omega arith) on_disk-stored
