-- ===== src/E2ee/Roster/Context.antt =====
-- What a roster's signature covers: all of it, in a form that can be read in one way only.
use bencchat.E2ee.Roster.{
  Roster, roster_domain, append_names, append_name_list, roster_signing_context,
}
use bencchat.Prelude.Bytes.{Bytes}
use bencchat.Prelude.{
  ℕ, ◌^◌, ◌<◌, ◌≡◌, refl, sym, ◌∙◌, ap, arith, List, [], ◌∷◌, ◌++◌, length, All, append_injective,
  append_assoc, append-nil,
}
use bencchat.E2ee.ChainCodec.{put_uint32}
use bencchat.E2ee.Stamp.{put_uint64, uint64, uint64-put_uint64}
use bencchat.E2ee.RoomSign.{append_len_prefixed}
use bencchat.E2ee.RoomSign.Context.{field_injective, put_uint32_injective}

-- A length-prefixed text, and what follows it.
unfoldable pub field : Bytes → Bytes → Bytes
field s rest = put_uint32 (length s) ++ (s ++ rest)

unfoldable pub names_then : List Bytes → Bytes → Bytes
names_then [] rest = rest
names_then (n ∷ ns) rest = field n (names_then ns rest)

unfoldable pub list_then : List Bytes → Bytes → Bytes
list_then ns rest = put_uint32 (length ns) ++ names_then ns rest

pub append_len_prefixed-field :
    (out s rest : Bytes) → append_len_prefixed out s ++ rest ≡ out ++ field s rest
unfolding append_len_prefixed field
append_len_prefixed-field out s rest = simp (append_assoc)

append_names-names_then :
    (ns : List Bytes) (out rest : Bytes) → append_names out ns ++ rest ≡ out ++ names_then ns rest
unfolding append_names names_then
append_names-names_then [] out rest = refl
append_names-names_then (n ∷ ns) out rest =
    append_names-names_then ns (append_len_prefixed out n) rest
    ∙ append_len_prefixed-field out n (names_then ns rest)

pub append_name_list-list_then :
    (ns : List Bytes) (out rest : Bytes)
    → append_name_list out ns ++ rest ≡ out ++ list_then ns rest
unfolding append_name_list list_then
append_name_list-list_then ns out rest =
    append_names-names_then ns (out ++ put_uint32 (length ns)) rest
    ∙ append_assoc out (put_uint32 (length ns)) (names_then ns rest)

-- The signed bytes of a roster.
abbrev signed_parts : Roster → Bytes
signed_parts r = field r.room (
    field r.owner
      (field r.author (put_uint64 r.epoch ++ list_then r.members (list_then r.removed []))))

roster_signing_context_parts :
    (r : Roster) → roster_signing_context r ≡ (roster_domain ++ 0 ∷ []) ++ signed_parts r
unfolding roster_signing_context
roster_signing_context_parts r =
    let domain = roster_domain ++ 0 ∷ [] in
    let o1 = append_len_prefixed domain r.room in
    let o2 = append_len_prefixed o1 r.owner in
    let o3 = append_len_prefixed o2 r.author in
    let o4 = o3 ++ put_uint64 r.epoch in
    let o5 = append_name_list o4 r.members in
    sym (append-nil (append_name_list o5 r.removed))
    ∙ append_name_list-list_then r.removed o5 []
    ∙ append_name_list-list_then r.members o4 (list_then r.removed [])
    ∙ append_assoc o3 (put_uint64 r.epoch) (list_then r.members (list_then r.removed []))
    ∙ append_len_prefixed-field o2 r.author _
    ∙ append_len_prefixed-field o1 r.owner _
    ∙ append_len_prefixed-field domain r.room _

names_then_injective :
    (ns ms : List Bytes) {rest rest' : Bytes}
    → length ns ≡ length ms
    → All (λ n. length n < 2 ^ 32) ns
    → All (λ n. length n < 2 ^ 32) ms
    → names_then ns rest ≡ names_then ms rest'
    → (ns ≡ ms) × (rest ≡ rest')
unfolding names_then field
names_then_injective [] [] l a b e = (refl, e)
names_then_injective [] (m ∷ ms) l a b e = absurd (omega arith)
names_then_injective (n ∷ ns) [] l a b e = absurd (omega arith)
names_then_injective (n ∷ ns) (m ∷ ms) l a b e =
    let (h, t) = field_injective n m a.0 b.0 e in
    let (hs, ts) = names_then_injective ns ms (omega arith) a.1 b.1 t in (cc, ts)

list_then_injective :
    (ns ms : List Bytes) {rest rest' : Bytes}
    → length ns < 2 ^ 32
    → length ms < 2 ^ 32
    → All (λ n. length n < 2 ^ 32) ns
    → All (λ n. length n < 2 ^ 32) ms
    → list_then ns rest ≡ list_then ms rest'
    → (ns ≡ ms) × (rest ≡ rest')
unfolding list_then
list_then_injective ns ms ln lm a b e =
    let (n, r) =
      append_injective (put_uint32 (length ns)) (put_uint32 (length ms)) (unfold put_uint32 in refl)
        e in
    names_then_injective ns ms (put_uint32_injective (length ns) (length ms) ln lm n) a b r

put_uint64_injective : (m n : ℕ) → m < 2 ^ 64 → n < 2 ^ 64 → put_uint64 m ≡ put_uint64 n → m ≡ n
put_uint64_injective m n hm hn e =
    sym (uint64-put_uint64 m [] hm) ∙ ap (λ b. uint64 (b ++ [])) e ∙ uint64-put_uint64 n [] hn

-- What the wire form can hold.
pub record IsSized (r : Roster) : Type 0 where
  pub room_size : length r.room < 2 ^ 32
  pub owner_size : length r.owner < 2 ^ 32
  pub author_size : length r.author < 2 ^ 32
  pub epoch_size : r.epoch < 2 ^ 64
  pub members_size : length r.members < 2 ^ 32
  pub member_size : All (λ n. length n < 2 ^ 32) r.members
  pub removed_size : length r.removed < 2 ^ 32
  pub each_size : All (λ n. length n < 2 ^ 32) r.removed

-- Two rosters whose signed bytes are the same make the same statement: the same room, owner and
-- author, the same epoch, the same members and the same removed members. No name can run into
-- another, nor one list into the other.
pub roster_signing_context_injective :
    (r s : Roster)
    → IsSized r
    → IsSized s
    → roster_signing_context r ≡ roster_signing_context s
    → (r.room ≡ s.room)
      × (r.owner ≡ s.owner)
      × (r.author ≡ s.author)
      × (r.epoch ≡ s.epoch)
      × (r.members ≡ s.members)
      × (r.removed ≡ s.removed)
unfolding field
roster_signing_context_injective r s hr hs e =
    let (_, f) =
      append_injective (roster_domain ++ 0 ∷ []) (roster_domain ++ 0 ∷ []) refl
        (sym (roster_signing_context_parts r) ∙ e ∙ roster_signing_context_parts s) in
    let (room, f1) = field_injective r.room s.room hr.room_size hs.room_size f in
    let (owner, f2) = field_injective r.owner s.owner hr.owner_size hs.owner_size f1 in
    let (author, f3) = field_injective r.author s.author hr.author_size hs.author_size f2 in
    let (time, f4) =
      append_injective (put_uint64 r.epoch) (put_uint64 s.epoch) (unfold put_uint64 in refl) f3 in
    let (members, f5) =
      list_then_injective r.members s.members hr.members_size hs.members_size hr.member_size
        hs.member_size f4 in
    let (removed, _) =
      list_then_injective r.removed s.removed hr.removed_size hs.removed_size hr.each_size
        hs.each_size f5 in
    (
      room,
      owner,
      author,
      put_uint64_injective r.epoch s.epoch hr.epoch_size hs.epoch_size time,
      members,
      removed,
    )
