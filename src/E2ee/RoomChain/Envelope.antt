-- ===== src/E2ee/RoomChain/Envelope.antt =====
-- The text of an envelope: its chain and position are read back.
use bencchat.Prelude.{ℕ, ◌*◌, ◌^◌, ◌<◌, ◌≡◌, refl, arith, true, some, All, length, drop}
use bencchat.Prelude.Bytes.{Bytes, IsByte}
use bencchat.Text.Base64
use bencchat.Text.Ascii.{is_hex, cut_at-append, has_prefix, cut_at-hex}
use bencchat.Text.Uint.{format_uint, parse_uint-format_uint, format_uint_hex}
use bencchat.E2ee.ChainCodec.{chain_id_len}
use bencchat.E2ee.RoomChain.{
  room_envelope_prefix_v3, is_room_chain_envelope, split_three, room_envelope_chain, envelope_text,
  envelope_payload,
}

module _ (id : Bytes) (index : ℕ) (sealed : Bytes) (id_length : length id ≡ chain_id_len * 2)
    (id_digits : All (λ c. is_hex c ≡ true) id) (index_range : index < 2 ^ 32) where
  split_envelope :
      split_three (drop (length room_envelope_prefix_v3) (envelope_text id index sealed))
      ≡ some (id, format_uint index, Base64.encode sealed)
  unfolding split_three envelope_text
  split_envelope = rw (
    cut_at-append b':' id _ (cut_at-hex id id_digits),
    cut_at-append b':' (format_uint index) (Base64.encode sealed)
        (cut_at-hex _ (format_uint_hex index)),
    split_three,
  )

  is_envelope : is_room_chain_envelope (envelope_text id index sealed) ≡ true
  unfolding is_room_chain_envelope envelope_text has_prefix
  is_envelope = refl

  pub room_envelope_chain-envelope_text :
      room_envelope_chain (envelope_text id index sealed) ≡ some (id, index)
  unfolding room_envelope_chain
  room_envelope_chain-envelope_text =
      ground (arith, split_envelope, parse_uint-format_uint index index_range, is_envelope)

  pub envelope_payload-envelope_text :
      All IsByte sealed
      → envelope_payload
          (split_three (drop (length room_envelope_prefix_v3) (envelope_text id index sealed)))
        ≡ some sealed
  unfolding envelope_payload
  envelope_payload-envelope_text b = rw (split_envelope) (Base64.decode-encode sealed b)
