-- ===== src/E2ee/Roster/RoundTrip.antt =====
-- A roster that was written for the wire reads back as itself.
use bencchat.Prelude.{
  ℕ, ◌^◌, ◌≤◌, ◌<◌, ◌≡◌, refl, sym, ◌∙◌, subst, arith, true, false, some, List, [], ◌∷◌, ◌++◌,
  length, take, drop, All, All-append, append_assoc, append-nil, length-append, take-append,
  drop-append, ltb,
}
use bencchat.Prelude.Bytes.{Bytes, IsByte}
use bencchat.Prelude.Outcome.{ok}
use bencchat.Text.Ascii.{has_prefix}
use bencchat.Text.Base64
use bencchat.E2ee.ChainCodec.{put_uint32, uint32}
use bencchat.E2ee.ChainCodec.RoundTrip.{uint32-put_uint32, put_uint32-IsByte}
use bencchat.E2ee.Stamp.{put_uint64, uint64, uint64-put_uint64}
use bencchat.E2ee.RoomSign.{append_len_prefixed}
use bencchat.E2ee.Roster.{
  Roster, roster_prefix, max_roster_members, append_name_list, within_bounds, roster_body,
  encode_roster, take_field, take_fields, take_list, named, decode_lists, decode_epoch, decode_body,
  decode_roster,
}
use bencchat.E2ee.Roster.Context.{
  field, names_then, list_then, append_len_prefixed-field, append_name_list-list_then, IsSized,
}

take_field-field : (s rest : Bytes) → length s < 2 ^ 32 → take_field (field s rest) ≡ some (s, rest)
unfolding take_field field put_uint32
take_field-field s rest h =
    let n : uint32 (take 4 (put_uint32 (length s) ++ (s ++ rest))) ≡ length s =
      uint32-put_uint32 (length s) (s ++ rest) h in
    ground (arith, n, length-append s rest, take-append s rest, drop-append s rest)

take_fields-names_then :
    (ns : List Bytes) (rest : Bytes)
    → All (λ n. length n < 2 ^ 32) ns
    → take_fields (length ns) (names_then ns rest) ≡ some (ns, rest)
unfolding take_fields names_then
take_fields-names_then [] rest h = refl
take_fields-names_then (n ∷ ns) rest h =
    rw (take_field-field n (names_then ns rest) h.0, take_fields)
      (rw (take_fields-names_then ns rest h.1, take_fields) refl)

take_list-list_then :
    (ns : List Bytes) (rest : Bytes)
    → length ns ≤ max_roster_members
    → All (λ n. length n < 2 ^ 32) ns
    → take_list (list_then ns rest) ≡ ok (ns, rest)
unfolding take_list list_then put_uint32
take_list-list_then ns rest small h =
    let n : uint32 (take 4 (put_uint32 (length ns) ++ names_then ns rest)) ≡ length ns =
      uint32-put_uint32 (length ns) (names_then ns rest) (omega arith) in
    ground (arith, n, take_fields-names_then ns rest h)

-- The bytes of a roster.
abbrev parts : Roster → Bytes
parts r = field r.room (
    field r.owner (
      field r.author (
        field r.signer (
          put_uint64 r.epoch ++ list_then r.members (list_then r.removed (field r.signature []))))))

roster_body-parts : (r : Roster) → roster_body r ≡ parts r
unfolding roster_body
roster_body-parts r =
    let o1 = append_len_prefixed [] r.room in
    let o2 = append_len_prefixed o1 r.owner in
    let o3 = append_len_prefixed o2 r.author in
    let o4 = append_len_prefixed o3 r.signer in
    let o5 = o4 ++ put_uint64 r.epoch in
    let o6 = append_name_list o5 r.members in
    let o7 = append_name_list o6 r.removed in
    sym (append-nil (append_len_prefixed o7 r.signature))
    ∙ append_len_prefixed-field o7 r.signature []
    ∙ append_name_list-list_then r.removed o6 (field r.signature [])
    ∙ append_name_list-list_then r.members o5 (list_then r.removed (field r.signature []))
    ∙ append_assoc o4 (put_uint64 r.epoch) _
    ∙ append_len_prefixed-field o3 r.signer _
    ∙ append_len_prefixed-field o2 r.author _
    ∙ append_len_prefixed-field o1 r.owner _
    ∙ append_len_prefixed-field [] r.room _

module _ (r : Roster) (sized : IsSized r) (signer_size : length r.signer < 2 ^ 32)
    (signature_size : length r.signature < 2 ^ 32)
    (few_members : length r.members ≤ max_roster_members)
    (few_removed : length r.removed ≤ max_roster_members) where
  decode_lists-parts :
      (r0 : Roster)
      → decode_lists r0 (list_then r.members (list_then r.removed (field r.signature [])))
        ≡ ok (record r0 { members = r.members; removed = r.removed; signature = r.signature })
  unfolding decode_lists
  decode_lists-parts r0 =
      rw
        (
          take_list-list_then r.members (list_then r.removed (field r.signature [])) few_members
              sized.member_size,
          decode_lists,
        )
        (rw
          (
            take_list-list_then r.removed (field r.signature []) few_removed sized.each_size,
            take_field-field r.signature [] signature_size,
          )
          refl)

  decode_epoch-parts :
      (r0 : Roster)
      → decode_epoch r0
          (put_uint64 r.epoch ++ list_then r.members (list_then r.removed (field r.signature [])))
        ≡ ok (record r0 {
          epoch = r.epoch;
          members = r.members;
          removed = r.removed;
          signature = r.signature;
        })
  unfolding decode_epoch
  decode_epoch-parts r0 =
      let rest = list_then r.members (list_then r.removed (field r.signature [])) in
      let time : uint64 (put_uint64 r.epoch ++ []) ≡ r.epoch =
        uint64-put_uint64 r.epoch [] sized.epoch_size in
      let long : ltb (length (put_uint64 r.epoch ++ rest)) 8 ≡ false =
        unfold put_uint64 in ground arith in
      let front : take 8 (put_uint64 r.epoch ++ rest) ≡ put_uint64 r.epoch ++ [] =
        unfold put_uint64 in refl in
      let back : drop 8 (put_uint64 r.epoch ++ rest) ≡ rest = unfold put_uint64 in refl in
      rw (long, front, time, back) (decode_lists-parts (record r0 { epoch = r.epoch }))

  front :
      take_fields 4 (parts r)
      ≡ some (
        r.room ∷ r.owner ∷ r.author ∷ r.signer ∷ [],
        put_uint64 r.epoch ++ list_then r.members (list_then r.removed (field r.signature [])),
      )
  unfolding names_then
  front =
      take_fields-names_then (r.room ∷ r.owner ∷ r.author ∷ r.signer ∷ []) _
        (sized.room_size, (sized.owner_size, (sized.author_size, (signer_size, tt))))

  decode_body-parts : decode_body (parts r) ≡ ok r
  unfolding decode_body named
  decode_body-parts = rw (front, decode_body) (decode_epoch-parts _)

-- Every text of a roster is made of bytes.
pub record IsText (r : Roster) : Type 0 where
  pub room_bytes : All IsByte r.room
  pub owner_bytes : All IsByte r.owner
  pub author_bytes : All IsByte r.author
  pub signer_bytes : All IsByte r.signer
  pub member_bytes : All (All IsByte) r.members
  pub removed_bytes : All (All IsByte) r.removed
  pub signature_bytes : All IsByte r.signature

field-IsByte : (s rest : Bytes) → All IsByte s → All IsByte rest → All IsByte (field s rest)
unfolding field
field-IsByte s rest h t =
    All-append IsByte (put_uint32 (length s)) (s ++ rest) (put_uint32-IsByte (length s))
      (All-append IsByte s rest h t)

names_then-IsByte :
    (ns : List Bytes) (rest : Bytes)
    → All (All IsByte) ns
    → All IsByte rest
    → All IsByte (names_then ns rest)
unfolding names_then
names_then-IsByte [] rest h t = t
names_then-IsByte (n ∷ ns) rest h t =
    field-IsByte n (names_then ns rest) h.0 (names_then-IsByte ns rest h.1 t)

list_then-IsByte :
    (ns : List Bytes) (rest : Bytes)
    → All (All IsByte) ns
    → All IsByte rest
    → All IsByte (list_then ns rest)
unfolding list_then
list_then-IsByte ns rest h t =
    All-append IsByte (put_uint32 (length ns)) (names_then ns rest) (put_uint32-IsByte (length ns))
      (names_then-IsByte ns rest h t)

put_uint64-IsByte : (n : ℕ) → All IsByte (put_uint64 n)
unfolding put_uint64
put_uint64-IsByte n = omega arith

roster_body-IsByte : (r : Roster) → IsText r → All IsByte (roster_body r)
roster_body-IsByte r h = subst (All IsByte) (sym (roster_body-parts r)) (
    field-IsByte r.room _ h.room_bytes (
      field-IsByte r.owner _ h.owner_bytes (
        field-IsByte r.author _ h.author_bytes (
          field-IsByte r.signer _ h.signer_bytes (
            All-append IsByte (put_uint64 r.epoch) _ (put_uint64-IsByte r.epoch) (
              list_then-IsByte r.members _ h.member_bytes (
                list_then-IsByte r.removed _ h.removed_bytes
                  (field-IsByte r.signature [] h.signature_bytes tt))))))))

-- A roster that is within the bounds of the wire form and is rendered for the wire reads back as
-- itself, signer and signature included. (Each of its texts is made of bytes and shorter than 2^32.)
pub decode_roster-encode_roster :
    (r : Roster) (body : Bytes)
    → IsSized r
    → length r.signer < 2 ^ 32
    → length r.signature < 2 ^ 32
    → IsText r
    → encode_roster r ≡ ok body
    → decode_roster body ≡ ok r
unfolding encode_roster decode_roster within_bounds has_prefix
decode_roster-encode_roster r body sized signer sig text e =
    let inside : within_bounds r ≡ true = ground (arith, e) in
    let same : roster_prefix ++ Base64.encode (roster_body r) ≡ body = ground (arith, e, inside) in
    let opened : Base64.decode (Base64.encode (roster_body r)) ≡ some (roster_body r) =
      Base64.decode-encode (roster_body r) (roster_body-IsByte r text) in
    subst (λ t. decode_roster t ≡ ok r) same
      (rw (opened, roster_body-parts r)
        (decode_body-parts r sized signer sig (ground arith) (ground arith)))
