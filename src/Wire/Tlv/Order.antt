-- ===== src/Wire/Tlv/Order.antt =====
-- What is set is read back, and nothing else is touched.
use bencchat.Prelude.{
  ℕ, ◌≡◌, refl, arith, none, some, List, [], ◌∷◌, ◌++◌, All, ◌==◌, if◌then◌else◌,
}
use bencchat.Prelude.Bytes.{IsU16}
use bencchat.Wire.Tlv.{
  Tlv, remove_tag, set, bytes_of, uint16s, uint16_slice_of, pack_uint16s, attributes_order,
  set_order, order,
}

bytes_of-append :
    (tag : ℕ) (ts : List Tlv) (t : Tlv)
    → bytes_of tag (ts ++ t ∷ []) ≡ (elim (bytes_of tag ts) [
      | none ↦ if t.tag == tag then some t.value else none
      | some v ↦ some v
    ])
unfolding bytes_of
bytes_of-append tag [] t = refl
bytes_of-append tag (u ∷ ts) t = ground (arith, bytes_of-append tag ts t)

bytes_of-remove_tag :
    (tag j : ℕ) (ts : List Tlv)
    → bytes_of j (remove_tag tag ts) ≡ (if tag == j then none else bytes_of j ts)
unfolding bytes_of remove_tag
bytes_of-remove_tag tag j [] = ground arith
bytes_of-remove_tag tag j (t ∷ ts) = ground (arith, bytes_of-remove_tag tag j ts)

-- After a tag is set, its value is the new one, and every other tag has the value it had.
pub bytes_of-set :
    (t : Tlv) (j : ℕ) (ts : List Tlv)
    → bytes_of j (set t ts) ≡ (if t.tag == j then some t.value else bytes_of j ts)
unfolding set
bytes_of-set t j ts =
    ground (arith, bytes_of-append j (remove_tag t.tag ts) t, bytes_of-remove_tag t.tag j ts)

pub uint16s-pack_uint16s : (ids : List ℕ) → All IsU16 ids → uint16s (pack_uint16s ids) ≡ some ids
unfolding uint16s pack_uint16s
uint16s-pack_uint16s [] h = refl
uint16s-pack_uint16s (id ∷ ids) h = ground (arith, uint16s-pack_uint16s ids h.1)

-- An ordering of 16-bit ids that was set reads back as itself, whatever the row held before.
pub order-set_order :
    (ids : List ℕ) (ts : List Tlv) → All IsU16 ids → order (set_order ids ts) ≡ ids
unfolding order set_order uint16_slice_of
order-set_order ids ts h = ground (
  arith,
  bytes_of-set (record { tag = attributes_order; value = pack_uint16s ids }) attributes_order ts,
  uint16s-pack_uint16s ids h,
)
