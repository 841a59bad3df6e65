-- ===== src/Oscar/Feedbag/Edit/Move.antt =====
-- internal/oscar/feedbag_edit.go: MoveBuddy.
use bencchat.Prelude.{
  Bool, false, ◌&&◌, Option, none, some, List, [], ◌∷◌, ◌++◌, ◌==◌, if◌then◌else◌, length,
}
use bencchat.Prelude.Bytes.{Bytes}
use bencchat.Prelude.Outcome.{Result, ok, err}
use bencchat.Wire.Tlv.{order}
use bencchat.Oscar.Feedbag.{
  Item, Names, EditError, EditOp, insert_items, update_items, delete_items, not_buddy,
  default_group_name, is_buddy, search, put, remove_at, next_item_id, next_group_id, with_order,
  new_group, find_group_by_id, root_index, has_id,
}
use bencchat.Oscar.Feedbag.Edit.{find_group_by_name, find_buddy, prune_group_membership}

module _ (names : Names) where
  unfoldable pub in_group : Item → Bytes → List Item → Bool
  in_group row group items = elim (find_group_by_id row.group_id items) [
    | none ↦ false
    | some (_, g) ↦ names.equal_fold g.name group
  ]

  -- The first half of a move. `none`: the list has no root, and `f.items[-1]` panics.
  unfoldable pub move_in : Item → Bytes → List Item → Option (List EditOp × List Item)
  move_in moved group items = elim (find_group_by_name names group items) [
    | some (g, found) ↦
        let row = record moved { group_id = found.group_id } in
        let grp = with_order (order found.tlvs ++ moved.item_id ∷ []) found in
        some (insert_items (row ∷ []) ∷ update_items (grp ∷ []) ∷ [], put g grp items ++ row ∷ [])
    | none ↦ elim (root_index items) [
      | none ↦ none
      | some (r, found) ↦
          let gid = next_group_id items in
          let grp = with_order (moved.item_id ∷ []) (new_group gid group) in
          let row = record moved { group_id = gid } in
          let root = with_order (order found.tlvs ++ gid ∷ []) found in
          some (
            insert_items (grp ∷ row ∷ []) ∷ update_items (root ∷ []) ∷ [],
            put r root items ++ grp ∷ row ∷ [],
          )
    ]
  ]

  -- The second half: the old row goes, and its group if that was the last member.
  unfoldable pub move_out : Item → List EditOp × List Item → List EditOp × List Item
  move_out old (ops, items) =
      let left : List Item =
        elim (search (λ it. is_buddy it && has_id old.group_id old.item_id it) items) [
          | none ↦ items
          | some (i, _) ↦ remove_at i items
        ] in
      let (pruning, pruned) = prune_group_membership names old.group_id old.item_id left in
      (ops ++ delete_items (old ∷ []) ∷ pruning, pruned)

  unfoldable pub move_buddy :
      Bytes → Bytes → List Item → Option (Result EditError (List EditOp) × List Item)
  move_buddy name new_group items =
      let trimmed = names.trim_space new_group in
      let group = if length trimmed == 0 then default_group_name else trimmed in
      elim (find_buddy names name items) [
        | none ↦ some (err not_buddy, items)
        | some (_, old) ↦
            if in_group old group items
            then some (ok [], items)
            else elim (move_in (record old { item_id = next_item_id items }) group items) [
              | none ↦ none
              | some half ↦ let (ops, left) = move_out old half in some (ok ops, left)
            ]
      ]
