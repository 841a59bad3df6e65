-- ===== src/Wire/Tlv.antt =====
-- internal/wire/tlv.go, and the ordering lists of internal/wire/feedbag.go that are kept in a TLV.
pub mod Order
use bencchat.Prelude.{
  ◌^◌, ℕ, zero, suc, ◌+◌, ◌*◌, ◌/◌, ◌%◌, Bool, true, false, ◌||◌, not, Option, none, some, List, [],
  ◌∷◌, ◌++◌, ◌==◌, if◌then◌else◌,
}
use bencchat.Prelude.Bytes.{Bytes}

pub record Tlv : Type 0 where
  pub tag : ℕ
  pub value : Bytes

unfoldable pub remove_tag : ℕ → List Tlv → List Tlv
remove_tag tag [] = []
remove_tag tag (t ∷ ts) = let rest = remove_tag tag ts in if t.tag == tag then rest else t ∷ rest

unfoldable pub set : Tlv → List Tlv → List Tlv
set t ts = remove_tag t.tag ts ++ t ∷ []

unfoldable pub has_tag : ℕ → List Tlv → Bool
has_tag tag [] = false
has_tag tag (t ∷ ts) = t.tag == tag || has_tag tag ts

-- The value of the first TLV with the tag.
unfoldable pub bytes_of : ℕ → List Tlv → Option Bytes
bytes_of tag [] = none
bytes_of tag (t ∷ ts) = if t.tag == tag then some t.value else bytes_of tag ts

first_uint8 : Bytes → Option ℕ
first_uint8 [] = none
first_uint8 (b ∷ bs) = some b

unfoldable pub uint8_of : ℕ → List Tlv → Option ℕ
unfolding first_uint8
uint8_of tag ts = elim (bytes_of tag ts) [ none ↦ none | some bs ↦ first_uint8 bs ]

-- A trailing odd byte means that the value is no such array.
unfoldable pub uint16s : Bytes → Option (List ℕ)
uint16s [] = some []
uint16s (a ∷ []) = none
uint16s (a ∷ b ∷ bs) = elim (uint16s bs) [ none ↦ none | some ids ↦ some ((a * 2 ^ 8 + b) ∷ ids) ]

unfoldable pub uint16_slice_of : ℕ → List Tlv → Option (List ℕ)
uint16_slice_of tag ts = elim (bytes_of tag ts) [ none ↦ none | some bs ↦ uint16s bs ]

unfoldable pub pack_uint16s : List ℕ → Bytes
pack_uint16s [] = []
pack_uint16s (id ∷ ids) = id / 2 ^ 8 % 256 ∷ id % 256 ∷ pack_uint16s ids

abbrev pub attributes_order : ℕ
attributes_order = 0xc8

abbrev pub attributes_alias : ℕ
attributes_alias = 0x131

abbrev pub attributes_pd_mode : ℕ
attributes_pd_mode = 0xca

unfoldable pub set_order : List ℕ → List Tlv → List Tlv
set_order ids ts = set (record { tag = attributes_order; value = pack_uint16s ids }) ts

-- `ids, _ := …`: an unset or malformed ordering is no ordering.
unfoldable pub order : List Tlv → List ℕ
order ts = elim (uint16_slice_of attributes_order ts) [ none ↦ [] | some ids ↦ ids ]

unfoldable pub set_alias : Bytes → List Tlv → List Tlv
set_alias [] ts = remove_tag attributes_alias ts
set_alias (b ∷ bs) ts = set (record { tag = attributes_alias; value = b ∷ bs }) ts
