-- ===== src/Oscar/Feedbag/Edit.antt =====
-- The edits of internal/oscar/feedbag_edit.go: what each does to the mirror, and its messages in order.
pub mod Move
use bencchat.Prelude.{
  ℕ, Bool, true, false, ◌&&◌, ◌||◌, not, Option, none, some, List, [], ◌∷◌, ◌++◌, ◌==◌,
  if◌then◌else◌, length,
}
use bencchat.Prelude.Bytes.{Bytes, bytes_eq}
use bencchat.Prelude.Outcome.{Result, ok, err}
use bencchat.Wire.Tlv.{Tlv, set, uint8_of, order, set_alias, attributes_pd_mode}
use bencchat.Oscar.Feedbag.{
  Item, Names, EditError, EditOp, insert_items, update_items, delete_items, name_required,
  already_buddy, not_buddy, already_blocked, not_blocked, no_group, group_exists, default_group,
  group_not_empty, class_buddy, class_deny, class_pdinfo, pd_mode_permit_all, pd_mode_deny_some,
  default_group_name, is_group, is_buddy, search, put, remove_at, without, next_item_id,
  next_group_id, with_order, new_root, new_group, find_group_by_id, root_index, reorder_root,
  has_id,
}

abbrev pub pd_mode_tlv : Tlv
pd_mode_tlv = record { tag = attributes_pd_mode; value = pd_mode_deny_some ∷ [] }

-- `mode, _ := …; mode == 0 || mode == FeedbagPDModePermitAll`.
unfoldable pub permits_all : Option ℕ → Bool
permits_all none = true
permits_all (some mode) = mode == 0 || mode == pd_mode_permit_all

abbrev pub new_pdinfo : ℕ → Item
new_pdinfo id = record {
  name = [];
  group_id = 0;
  item_id = id;
  class_id = class_pdinfo;
  tlvs = set pd_mode_tlv [];
}

abbrev pub new_deny : ℕ → Bytes → Item
new_deny id name = record {
  name = name;
  group_id = 0;
  item_id = id;
  class_id = class_deny;
  tlvs = [];
}

module _ (names : Names) where
  unfoldable pub remove_spaces : Bytes → Bytes
  remove_spaces [] = []
  remove_spaces (c ∷ cs) = let rest = remove_spaces cs in if c == b' ' then rest else c ∷ rest

  unfoldable pub norm_name : Bytes → Bytes
  unfolding remove_spaces
  norm_name s = names.to_lower (remove_spaces s)

  unfoldable pub find_group_by_name : Bytes → List Item → Option (ℕ × Item)
  find_group_by_name name = search (λ it. is_group it && names.equal_fold it.name name)

  unfoldable pub find_buddy : Bytes → List Item → Option (ℕ × Item)
  find_buddy name = search (λ it. is_buddy it && bytes_eq (norm_name it.name) (norm_name name))

  unfoldable pub find_deny : Bytes → List Item → Option (ℕ × Item)
  find_deny name =
      search (λ it. it.class_id == class_deny && bytes_eq (norm_name it.name) (norm_name name))

  -- A group that has lost its last member goes too, unless it is the default group.
  unfoldable pub prune_group_membership : ℕ → ℕ → List Item → List EditOp × List Item
  prune_group_membership gid id items = elim (find_group_by_id gid items) [
    | none ↦ ([], items)
    | some (g, found) ↦
        let grp = with_order (without (order found.tlvs) id) found in
        if length (order grp.tlvs) == 0 && not (names.equal_fold grp.name default_group_name)
        then (let (ops, rooted) = reorder_root (λ ids. without ids gid) items in
            (
              ops ++ delete_items (grp ∷ []) ∷ [],
              elim (find_group_by_id gid rooted) [
                | none ↦ rooted
                | some (j, _) ↦ remove_at j rooted
              ],
            ))
        else (update_items (grp ∷ []) ∷ [], put g grp items)
  ]

  unfoldable pub remove_buddy : Bytes → List Item → Result EditError (List EditOp) × List Item
  remove_buddy name items = elim (find_buddy name items) [
    | none ↦ (err not_buddy, items)
    | some (b, buddy) ↦
        let (ops, left) = prune_group_membership buddy.group_id buddy.item_id (remove_at b items) in
        (ok (delete_items (buddy ∷ []) ∷ ops), left)
  ]

  abbrev pub new_buddy : ℕ → ℕ → Bytes → Item
  new_buddy gid id name = record {
    name = name;
    group_id = gid;
    item_id = id;
    class_id = class_buddy;
    tlvs = [];
  }

  unfoldable pub add_to_group :
      Item → Option (ℕ × Item) → Bytes → List Item → List EditOp × List Item
  add_to_group row (some (g, found)) group items =
      let buddy = record row { group_id = found.group_id } in
      let grp = with_order (order found.tlvs ++ row.item_id ∷ []) found in
      (insert_items (buddy ∷ []) ∷ update_items (grp ∷ []) ∷ [], put g grp items ++ buddy ∷ [])
  add_to_group row none group items =
      let gid = next_group_id items in
      let grp = with_order (row.item_id ∷ []) (new_group gid group) in
      let buddy = record row { group_id = gid } in
      elim (root_index items) [
        | none ↦
            let root = with_order (gid ∷ []) new_root in
            (insert_items (root ∷ grp ∷ buddy ∷ []) ∷ [], (items ++ root ∷ []) ++ grp ∷ buddy ∷ [])
        | some (r, found) ↦
            let root = with_order (order found.tlvs ++ gid ∷ []) found in
            (
              insert_items (grp ∷ buddy ∷ []) ∷ update_items (root ∷ []) ∷ [],
              put r root items ++ grp ∷ buddy ∷ [],
            )
      ]

  unfoldable pub add_buddy : Bytes → Bytes → List Item → Result EditError (List EditOp) × List Item
  unfolding add_to_group
  add_buddy screen_name group items =
      let name = names.trim_space screen_name in
      if length name == 0 then (err name_required, items) else elim (find_buddy name items) [
        | some _ ↦ (err already_buddy, items)
        | none ↦
            let target = if length group == 0 then default_group_name else group in
            let (ops, left) =
              add_to_group (new_buddy 0 (next_item_id items) name) (find_group_by_name target items)
                target items in
            (ok ops, left)
      ]

  -- The privacy mode is made one that reads the deny list.
  unfoldable pub enforce_deny : List Item → List EditOp × List Item
  enforce_deny items = elim (search (λ it. it.class_id == class_pdinfo) items) [
    | none ↦
        let item = new_pdinfo (next_item_id items) in
        (insert_items (item ∷ []) ∷ [], items ++ item ∷ [])
    | some (i, found) ↦
        if permits_all (uint8_of attributes_pd_mode found.tlvs)
        then (let item = record found { tlvs = set pd_mode_tlv found.tlvs } in
            (update_items (item ∷ []) ∷ [], put i item items))
        else ([], items)
  ]

  unfoldable pub block_buddy : Bytes → List Item → Result EditError (List EditOp) × List Item
  block_buddy screen_name items =
      let name = names.trim_space screen_name in
      if length name == 0 then (err name_required, items) else elim (find_deny name items) [
        | some _ ↦ (err already_blocked, items)
        | none ↦
            let (ops, enforced) = enforce_deny items in
            let deny = new_deny (next_item_id enforced) name in
            (ok (ops ++ insert_items (deny ∷ []) ∷ []), enforced ++ deny ∷ [])
      ]

  unfoldable pub unblock_buddy : Bytes → List Item → Result EditError (List EditOp) × List Item
  unblock_buddy name items = elim (find_deny name items) [
    | none ↦ (err not_blocked, items)
    | some (i, deny) ↦ (ok (delete_items (deny ∷ []) ∷ []), remove_at i items)
  ]

  unfoldable pub rename_buddy :
      Bytes → Bytes → List Item → Result EditError (List EditOp) × List Item
  rename_buddy name alias items = elim (find_buddy name items) [
    | none ↦ (err not_buddy, items)
    | some (b, found) ↦
        let buddy = record found { tlvs = set_alias alias found.tlvs } in
        (ok (update_items (buddy ∷ []) ∷ []), put b buddy items)
  ]

  -- Whether a group other than the one at `g` has the name.
  unfoldable pub taken : ℕ → Bytes → List Item → Bool
  taken g name items = elim (find_group_by_name name items) [
    | none ↦ false
    | some (j, _) ↦ not (j == g)
  ]

  unfoldable pub rename_group :
      Bytes → Bytes → List Item → Result EditError (List EditOp) × List Item
  rename_group old_name wanted items =
      let new_name = names.trim_space wanted in
      if length new_name == 0
      then (err name_required, items)
      else elim (find_group_by_name old_name items) [
        | none ↦ (err no_group, items)
        | some (g, found) ↦ if taken g new_name items then (err group_exists, items) else (
          ok (update_items (record found { name = new_name } ∷ []) ∷ []),
          put g (record found { name = new_name }) items,
        )
      ]

  unfoldable pub delete_group : Bytes → List Item → Result EditError (List EditOp) × List Item
  delete_group name items =
      if names.equal_fold (names.trim_space name) default_group_name
      then (err default_group, items)
      else elim (find_group_by_name name items) [
        | none ↦ (err no_group, items)
        | some (g, grp) ↦
            if not (length (order grp.tlvs) == 0)
            then (err group_not_empty, items)
            else (let (ops, rooted) = reorder_root (λ ids. without ids grp.group_id) items in
                (
                  ok (ops ++ delete_items (grp ∷ []) ∷ []),
                  elim (find_group_by_name name rooted) [
                    | none ↦ rooted
                    | some (j, _) ↦ remove_at j rooted
                  ],
                ))
      ]
