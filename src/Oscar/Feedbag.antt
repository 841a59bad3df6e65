-- ===== src/Oscar/Feedbag.antt =====
-- internal/oscar/feedbag_edit.go: the mirror of the server-stored buddy list, its edits, and the
-- messages that carry each edit. `names` stands for the standard library's functions on Unicode
-- text. A row is read together with its index, by which it is written back.
-- A message's rows are those of the time it was built. (In the source a row's TLVs may share memory
-- with the mirror's, so that a row sent early can carry an ordering that was written later; the last
-- message about that row is the same.)
pub mod Edit
pub mod Rows
pub mod Replay
pub mod Carry
pub mod Fresh
pub mod Reorder
pub mod Removals
pub mod Additions
pub mod Blocking
pub mod Moves
use bencchat.Prelude.{
  ℕ, zero, suc, ◌+◌, ◌%◌, ◌^◌, Bool, true, false, ◌&&◌, ◌||◌, not, Option, none, some, List, [],
  ◌∷◌, ◌++◌, ltb, ◌==◌, if◌then◌else◌, length,
}
use bencchat.Prelude.Bytes.{Bytes, bytes_eq}
use bencchat.Prelude.Outcome.{Result, ok, err}
use bencchat.Text.Ascii.{bytes}
use bencchat.Wire.Tlv.{Tlv, set, uint8_of, set_order, order, set_alias, attributes_pd_mode}

abbrev pub class_buddy : ℕ
class_buddy = 0

abbrev pub class_group : ℕ
class_group = 1

abbrev pub class_deny : ℕ
class_deny = 3

abbrev pub class_pdinfo : ℕ
class_pdinfo = 4

abbrev pub pd_mode_permit_all : ℕ
pd_mode_permit_all = 1

abbrev pub pd_mode_deny_some : ℕ
pd_mode_deny_some = 4

-- "Buddies"
abbrev pub default_group_name : Bytes
default_group_name = bytes "Buddies"

pub record Item : Type 0 where
  pub name : Bytes
  pub group_id : ℕ
  pub item_id : ℕ
  pub class_id : ℕ
  pub tlvs : List Tlv

unfoldable pub is_root : Item → Bool
is_root it = it.class_id == class_group && it.group_id == 0

unfoldable pub is_group : Item → Bool
is_group it = it.class_id == class_group && not (it.group_id == 0)

unfoldable pub is_buddy : Item → Bool
is_buddy it = it.class_id == class_buddy

-- The identity of a row.
unfoldable pub has_id : ℕ → ℕ → Item → Bool
has_id g i it = it.group_id == g && it.item_id == i

-- strings.EqualFold, strings.ToLower and strings.TrimSpace.
pub record Names : Type 0 where
  pub equal_fold : Bytes → Bytes → Bool
  pub to_lower : Bytes → Bytes
  pub trim_space : Bytes → Bytes

pub data EditError : Type 0 where
  name_required already_buddy not_buddy already_blocked not_blocked no_group group_exists :
      EditError
  default_group group_not_empty : EditError

pub data EditOp : Type 0 where
  insert_items update_items delete_items : List Item → EditOp

-- The first row that passes, with its index.
unfoldable pub search : (Item → Bool) → List Item → Option (ℕ × Item)
search p [] = none
search p (x ∷ xs) =
    if p x then some (0, x) else elim (search p xs) [ none ↦ none | some (i, y) ↦ some (suc i, y) ]

unfoldable pub put : ℕ → Item → List Item → List Item
put i y [] = []
put zero y (x ∷ xs) = y ∷ xs
put (suc i) y (x ∷ xs) = x ∷ put i y xs

unfoldable pub remove_at : ℕ → List Item → List Item
remove_at i [] = []
remove_at zero (x ∷ xs) = xs
remove_at (suc i) (x ∷ xs) = x ∷ remove_at i xs

unfoldable pub without : List ℕ → ℕ → List ℕ
without [] id = []
without (x ∷ xs) id = let rest = without xs id in if x == id then rest else x ∷ rest

unfoldable pub greatest : (Item → Bool) → (Item → ℕ) → List Item → ℕ
greatest p f [] = 0
greatest p f (x ∷ xs) = let rest = greatest p f xs in if p x && ltb rest (f x) then f x else rest

unfoldable pub next_item_id : List Item → ℕ
next_item_id items = (greatest (λ it. not (is_group it)) (λ it. it.item_id) items + 1) % 2 ^ 16

unfoldable pub next_group_id : List Item → ℕ
next_group_id items = (greatest (λ it. true) (λ it. it.group_id) items + 1) % 2 ^ 16

unfoldable pub with_order : List ℕ → Item → Item
with_order ids it = record it { tlvs = set_order ids it.tlvs }

abbrev pub new_root : Item
new_root = record { name = []; group_id = 0; item_id = 0; class_id = class_group; tlvs = [] }

abbrev pub new_group : ℕ → Bytes → Item
new_group gid name = record {
  name = name;
  group_id = gid;
  item_id = 0;
  class_id = class_group;
  tlvs = [];
}

unfoldable pub find_group_by_id : ℕ → List Item → Option (ℕ × Item)
find_group_by_id gid = search (λ it. is_group it && it.group_id == gid)

unfoldable pub root_index : List Item → Option (ℕ × Item)
root_index = search is_root

unfoldable pub ensure_base_structure : Bytes → List Item → List EditOp × List Item
ensure_base_structure label items = elim (root_index items) [
  | some _ ↦ ([], items)
  | none ↦
      let gid = next_group_id items in
      let root = with_order (gid ∷ []) new_root in
      let grp = new_group gid label in
      (insert_items (root ∷ grp ∷ []) ∷ [], items ++ root ∷ grp ∷ [])
]

-- The message about the root that the edits have in common, where there is a root.
unfoldable pub reorder_root : (List ℕ → List ℕ) → List Item → List EditOp × List Item
reorder_root change items = elim (root_index items) [
  | none ↦ ([], items)
  | some (r, root) ↦
      let root' = with_order (change (order root.tlvs)) root in
      (update_items (root' ∷ []) ∷ [], put r root' items)
]

unfoldable pub upsert_item : Item → List Item → List Item
upsert_item it items = elim (search (has_id it.group_id it.item_id) items) [
  | some (i, _) ↦ put i it items
  | none ↦ items ++ it ∷ []
]

unfoldable pub apply_server_upsert : List Item → List Item → List Item
unfolding upsert_item
apply_server_upsert [] items = items
apply_server_upsert (it ∷ its) items = apply_server_upsert its (upsert_item it items)

unfoldable pub delete_item : Item → List Item → List Item
delete_item it items = elim (search (has_id it.group_id it.item_id) items) [
  | some (i, _) ↦ remove_at i items
  | none ↦ items
]

unfoldable pub apply_server_delete : List Item → List Item → List Item
unfolding delete_item
apply_server_delete [] items = items
apply_server_delete (it ∷ its) items = apply_server_delete its (delete_item it items)
