-- ===== src/Tests/Chains.antt =====
-- The chains of ratchet.go and their text forms.
use bencchat.Prelude.{◌+◌, ◌≡◌, refl, arith, true}
use bencchat.Prelude.Outcome.{ok}
use bencchat.E2ee.Ratchet.{Chain, ChainView, view, step, step_times, next, message_key, advance}
use bencchat.E2ee.Ratchet.Agreement
use bencchat.E2ee.Ratchet.Agreement.{after_sends}
use bencchat.E2ee.ChainCodec.{encode_chain, decode_chain}
use bencchat.E2ee.ChainCodec.RoundTrip
use bencchat.E2ee.ChainCodec.RoundTrip.{IsWellFormed}
use bencchat.Text.Ascii.{bytes, is_hex}
use bencchat.Tests.Toy.{fill, toy}

abbrev chain : Chain
chain = record { id = bytes "00112233445566ff"; state = fill 32 9; index = 3 }

abbrev held : ChainView
held = record { id = bytes "00112233445566ff"; state = fill 32 9; index = 3 }

abbrev wound : ChainView
wound = record { id = bytes "00112233445566ff"; state = fill 32 13; index = 5 }

chain-IsWellFormed : IsWellFormed (view chain)
unfolding view is_hex
chain-IsWellFormed = record {
  id_length = refl;
  id_digits = ground arith;
  state_length = refl;
  state_bytes = omega arith;
  index_range = omega arith;
}

held_moves : advance toy.hmac held 5 ≡ (wound, true)
unfolding advance step_times step
held_moves = refl

message_key-next_example :
    (message_key toy.hmac (view chain) (next toy.hmac (after_sends toy.hmac 2 chain)).1
      ≡ ok (next toy.hmac (after_sends toy.hmac 2 chain)).0)
    × ((next toy.hmac (after_sends toy.hmac 2 chain)).1 ≡ 3 + 2)
    × ((next toy.hmac (after_sends toy.hmac 2 chain)).2.id ≡ (view chain).id)
message_key-next_example = Agreement.message_key-next toy.hmac chain 2 (omega arith) (omega arith)

decode-encode_chain_example : decode_chain (encode_chain chain) ≡ ok chain
decode-encode_chain_example = RoundTrip.decode-encode_chain chain chain-IsWellFormed
