-- ===== src/Tests/Views.antt =====
-- Held views: learned, handed on and pruned.
use bencchat.Client.RoomCrypto.Trim.{chain_bundle_for}
use bencchat.Prelude.{ℕ, ◌≡◌, arith, some, [], ◌∷◌, true, false, All, Any}
use bencchat.Prelude.Bytes.{Bytes, bytes_eq_refl}
use bencchat.Prelude.Assoc.{lookup}
use bencchat.Text.Ascii.{bytes}
use bencchat.E2ee.Ratchet.{ChainView}
use bencchat.Client.RoomCrypto.{RoomKeys, empty_room, learn_chain_view}
use bencchat.Client.RoomCrypto.Readers
use bencchat.Client.RoomCrypto.Newcomers
use bencchat.Client.RoomCrypto.Newcomers.{OpensAfter}
use bencchat.Tests.Toy.{fill, toy}

abbrev name : Bytes
name = bytes "00112233445566ff"

abbrev held : ChainView
held = record { id = name; state = fill 32 9; index = 3 }

-- The same chain, two positions earlier.
abbrev earlier : ChainView
earlier = record { id = name; state = fill 32 5; index = 1 }

abbrev room : RoomKeys
room = record empty_room { encrypted = true; views = (name, held) ∷ []; seen = (name, 3000) ∷ [] }

held_there : lookup name room.views ≡ some held
unfolding lookup
held_there = ground (arith, bytes_eq_refl name)

learn_chain_view-Covers_example :
    (w : ChainView) × (lookup name (learn_chain_view toy.hmac earlier room).views ≡ some w)
    × Readers.Covers toy.hmac held w
learn_chain_view-Covers_example =
    Readers.learn_chain_view-Covers toy.hmac earlier room name held held_there

chain_bundle_for-OpensAfter_example :
    All
      (λ w.
        Any
          (λ p. (n : ℕ) × (lookup p.0 room.seen ≡ some n) × OpensAfter toy.hmac n p.1 w)
          room.views)
      (chain_bundle_for toy.hmac true (some room))
    × (chain_bundle_for toy.hmac false (some room) ≡ [])
chain_bundle_for-OpensAfter_example = Newcomers.chain_bundle_for-OpensAfter toy.hmac room
