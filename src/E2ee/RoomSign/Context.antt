-- ===== src/E2ee/RoomSign/Context.antt =====
-- The bytes under a signature say what was signed: no two contents share them.
use bencchat.Prelude.{
  ℕ, ◌^◌, ◌<◌, ◌≡◌, ◌≢◌, refl, sym, ◌∙◌, arith, [], ◌∷◌, ◌++◌, length, append_injective,
  cons_injective, append_assoc, append-nil,
}
use bencchat.Prelude.Bytes.{Bytes}
use bencchat.E2ee.ChainCodec.{put_uint32}
use bencchat.E2ee.Stamp.{stamp_len}
use bencchat.E2ee.RoomSign.{
  append_len_prefixed, signing_context_v2, attest_context, room_sig_domain,
}

pub put_uint32_injective : (m n : ℕ) → m < 2 ^ 32 → n < 2 ^ 32 → put_uint32 m ≡ put_uint32 n → m ≡ n
unfolding put_uint32
put_uint32_injective m n hm hn e =
    let (a, ra) = cons_injective e in
    let (b, rb) = cons_injective ra in
    let (c, rc) = cons_injective rb in let (d, rd) = cons_injective rc in omega arith

-- A length-prefixed field, and whatever follows it, can be told apart.
pub field_injective :
    (s t : Bytes) {rest rest' : Bytes}
    → length s < 2 ^ 32
    → length t < 2 ^ 32
    → put_uint32 (length s) ++ (s ++ rest) ≡ put_uint32 (length t) ++ (t ++ rest')
    → (s ≡ t) × (rest ≡ rest')
field_injective s t hs ht e =
    let (n, r) =
      append_injective (put_uint32 (length s)) (put_uint32 (length t)) (unfold put_uint32 in refl)
        e in
    append_injective s t (put_uint32_injective (length s) (length t) hs ht n) r

signing_context_fields :
    (room stamp message : Bytes)
    → signing_context_v2 room stamp message
      ≡ (room_sig_domain ++ 0 ∷ [])
        ++ (put_uint32 (length room)
            ++ (room ++ (stamp ++ (put_uint32 (length message) ++ (message ++ [])))))
unfolding signing_context_v2 append_len_prefixed
signing_context_fields room stamp message = simp (append-nil, append_assoc)

-- Two room messages with one signing context are the same message, sent to the same room under
-- the same stamp: a signature cannot be carried to another room, text or time.
pub signing_context_v2_injective :
    (room room' stamp stamp' message message' : Bytes)
    → length room < 2 ^ 32
    → length room' < 2 ^ 32
    → length stamp ≡ stamp_len
    → length stamp' ≡ stamp_len
    → length message < 2 ^ 32
    → length message' < 2 ^ 32
    → signing_context_v2 room stamp message ≡ signing_context_v2 room' stamp' message'
    → (room ≡ room') × (stamp ≡ stamp') × (message ≡ message')
signing_context_v2_injective room room' stamp stamp' message message' hr hr' hs hs' hm hm' e =
    let (_, f) = append_injective (room_sig_domain ++ 0 ∷ []) (room_sig_domain ++ 0 ∷ []) refl (
      sym (signing_context_fields room stamp message)
      ∙ e
      ∙ signing_context_fields room' stamp' message') in
    let (r, g) = field_injective room room' hr hr' f in
    let (s, h) = append_injective stamp stamp' (hs ∙ sym hs') g in
    let (m, _) = field_injective message message' hm hm' h in (r, s, m)

-- No room message, whatever the room is called and whatever it says, has the bytes of a device
-- attestation.
pub signing_context-ne-attest_context :
    (room stamp message screen_name nonce : Bytes)
    → signing_context_v2 room stamp message ≢ attest_context screen_name nonce
unfolding signing_context_v2 attest_context append_len_prefixed
signing_context-ne-attest_context room stamp message screen_name nonce e = cc
