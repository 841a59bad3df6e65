-- ===== src/Oscar/Feedbag/Removals.antt =====
-- Removals and renames: prune_group_membership, RemoveBuddy, UnblockBuddy, RenameBuddy, RenameGroup
-- and DeleteGroup are carried by their messages.
use bencchat.Prelude.{
  ℕ, ◌≡◌, refl, sym, subst, arith, inl, inr, Bool, ◌&&◌, not, List, [], ◌∷◌, ◌++◌, Bool-cases,
  Option-cases, length, ◌==◌,
}
use bencchat.Prelude.Bytes.{Bytes}
use bencchat.Wire.Tlv.{order, set_alias}
use bencchat.Oscar.Feedbag.{
  Item, Names, EditOp, update_items, delete_items, is_group, search, put, remove_at, without,
  with_order, find_group_by_id, reorder_root, default_group_name, not_buddy, not_blocked,
  name_required, no_group, group_exists, group_not_empty, default_group,
}
use bencchat.Oscar.Feedbag.Edit.{
  find_buddy, find_deny, find_group_by_name, prune_group_membership, remove_buddy, rename_buddy,
  unblock_buddy, rename_group, delete_group, taken,
}
use bencchat.Oscar.Feedbag.Rows.{search-Found, Found-search, All-Found}
use bencchat.Oscar.Feedbag.Replay.{IsPlain, IsList, Carried}
use bencchat.Oscar.Feedbag.Carry.{Carried-nothing, Carried-both, Carried-put, Carried-remove}
use bencchat.Oscar.Feedbag.Reorder.{
  IsEdit, with_order-IsPlain, with_order-SameId, reorder_root-Carried, reorder_root-Found,
}

module _ (names : Names) where
  -- The row of a group whose last member, or another one, has left.
  abbrev shrunk : ℕ → Item → Item
  shrunk id found = with_order (without (order found.tlvs) id) found

  abbrev empties : ℕ → Item → Bool
  empties id found =
      length (order (shrunk id found).tlvs) == 0
      && not (names.equal_fold (shrunk id found).name default_group_name)

  pub prune_group_membership-Carried :
      (gid id : ℕ) (items : List Item)
      → IsList items
      → Carried
          (prune_group_membership names gid id items).0
          items
          (prune_group_membership names gid id items).1
  unfolding prune_group_membership find_group_by_id
  prune_group_membership-Carried gid id items l =
      let p = λ (it : Item). is_group it && it.group_id == gid in
      elim (Option-cases (search p items)) [
        | inl gone ↦
            let idle : prune_group_membership names gid id items ≡ ([], items) =
              ground (arith, gone) in
            subst (λ (r : List EditOp × List Item). Carried r.0 items r.1) (sym idle)
              (Carried-nothing items l)
        | inr ((g, found), e) ↦
            let at = search-Found p items g found e in
            let plain = All-Found p IsPlain items g found at l.plain in
            elim (Bool-cases (empties id found)) [
              | inr stays ↦
                  let kept : prune_group_membership names gid id items
                      ≡ (update_items (shrunk id found ∷ []) ∷ [], put g (shrunk id found) items) =
                    ground (arith, e, stays) in
                  subst (λ (r : List EditOp × List Item). Carried r.0 items r.1) (sym kept)
                    (Carried-put p items g found (shrunk id found) l at (with_order-SameId _ found)
                      (with_order-IsPlain _ found plain))
              | inl goes ↦
                  let change = λ (ids : List ℕ). without ids gid in
                  let rooted = (reorder_root change items).1 in
                  let still =
                    reorder_root-Found p change items g found (λ y flat. ground (arith, flat)) at in
                  let rooting = reorder_root-Carried change items l in
                  let dropped : prune_group_membership names gid id items ≡ (
                    (reorder_root change items).0 ++ delete_items (shrunk id found ∷ []) ∷ [],
                    remove_at g rooted,
                  ) =
                    ground (arith, e, goes, Found-search p rooted g found still) in
                  subst (λ (r : List EditOp × List Item). Carried r.0 items r.1) (sym dropped)
                    (Carried-both (reorder_root change items).0
                      (delete_items (shrunk id found ∷ []) ∷ []) items rooted (remove_at g rooted) l
                      rooting
                      (Carried-remove p rooted g found (shrunk id found) rooting.list still
                        (with_order-SameId _ found)))
            ]
      ]

  -- In a list whose rows have distinct identities, removing a buddy is refused, changing nothing, or is
  -- carried by its messages (another session that is pushed them holds the same rows), with the
  -- group that it may have emptied.
  pub remove_buddy-IsEdit :
      (name : Bytes) (items : List Item)
      → IsList items
      → IsEdit items (remove_buddy names name items)
  unfolding remove_buddy find_buddy
  remove_buddy-IsEdit name items l = elim (Option-cases (find_buddy names name items)) [
    | inl gone ↦ inl (not_buddy, ground (arith, gone))
    | inr ((b, buddy), e) ↦
        let at = search-Found _ items b buddy e in
        let taken = Carried-remove _ items b buddy buddy l at (refl, refl) in
        let rest =
          prune_group_membership-Carried buddy.group_id buddy.item_id (remove_at b items)
            taken.list in
        let pruned =
          prune_group_membership names buddy.group_id buddy.item_id (remove_at b items) in
        inr (
          delete_items (buddy ∷ []) ∷ pruned.0,
          pruned.1,
          ground (arith, e),
          Carried-both (delete_items (buddy ∷ []) ∷ []) pruned.0 items (remove_at b items) pruned.1
              l taken rest,
        )
  ]

  pub unblock_buddy-IsEdit :
      (name : Bytes) (items : List Item)
      → IsList items
      → IsEdit items (unblock_buddy names name items)
  unfolding unblock_buddy find_deny
  unblock_buddy-IsEdit name items l = elim (Option-cases (find_deny names name items)) [
    | inl gone ↦ inl (not_blocked, ground (arith, gone))
    | inr ((i, deny), e) ↦
        let at = search-Found _ items i deny e in
        inr (
          delete_items (deny ∷ []) ∷ [],
          remove_at i items,
          ground (arith, e),
          Carried-remove _ items i deny deny l at (refl, refl),
        )
  ]

  pub rename_buddy-IsEdit :
      (name alias : Bytes) (items : List Item)
      → IsList items
      → IsEdit items (rename_buddy names name alias items)
  unfolding rename_buddy find_buddy
  rename_buddy-IsEdit name alias items l = elim (Option-cases (find_buddy names name items)) [
    | inl gone ↦ inl (not_buddy, ground (arith, gone))
    | inr ((b, found), e) ↦
        let at = search-Found _ items b found e in
        let plain = All-Found _ IsPlain items b found at l.plain in
        let buddy = record found { tlvs = set_alias alias found.tlvs } in
        inr (
          update_items (buddy ∷ []) ∷ [],
          put b buddy items,
          ground (arith, e),
          Carried-put _ items b found buddy l at (refl, refl) (unfold is_group in plain),
        )
  ]

  -- Renaming a group is refused, changing nothing, or is carried by its message.
  pub rename_group-IsEdit :
      (old_name wanted : Bytes) (items : List Item)
      → IsList items
      → IsEdit items (rename_group names old_name wanted items)
  unfolding rename_group find_group_by_name
  rename_group-IsEdit old_name wanted items l =
      let new_name = names.trim_space wanted in
      elim (Bool-cases (length new_name == 0)) [
        | inl empty ↦ inl (name_required, ground (arith, empty))
        | inr named ↦ elim (Option-cases (find_group_by_name names old_name items)) [
          | inl gone ↦ inl (no_group, ground (arith, named, gone))
          | inr ((g, found), e) ↦ elim (Bool-cases (taken names g new_name items)) [
            | inl used ↦ inl (group_exists, ground (arith, named, e, used))
            | inr unused ↦
                let at = search-Found _ items g found e in
                let plain = All-Found _ IsPlain items g found at l.plain in
                let grp = record found { name = new_name } in
                inr (
                  update_items (grp ∷ []) ∷ [],
                  put g grp items,
                  ground (arith, named, e, unused),
                  Carried-put _ items g found grp l at (refl, refl) (unfold is_group in plain),
                )
          ]
        ]
      ]

  -- Deleting a group is refused, changing nothing, or is carried by its messages: the root without the
  -- group, where there is a root, and then the group's row.
  pub delete_group-IsEdit :
      (name : Bytes) (items : List Item)
      → IsList items
      → IsEdit items (delete_group names name items)
  unfolding delete_group find_group_by_name
  delete_group-IsEdit name items l =
      let p = λ (it : Item). is_group it && names.equal_fold it.name name in
      elim (Bool-cases (names.equal_fold (names.trim_space name) default_group_name)) [
        | inl base ↦ inl (default_group, ground (arith, base))
        | inr other ↦ elim (Option-cases (search p items)) [
          | inl gone ↦ inl (no_group, ground (arith, other, gone))
          | inr ((g, grp), e) ↦ elim (Bool-cases (length (order grp.tlvs) == 0)) [
            | inr full ↦ inl (group_not_empty, ground (arith, other, e, full))
            | inl empty ↦
                let change = λ (ids : List ℕ). without ids grp.group_id in
                let rooted = (reorder_root change items).1 in
                let at = search-Found p items g grp e in
                let still =
                  reorder_root-Found p change items g grp (λ y flat. ground (arith, flat)) at in
                let rooting = reorder_root-Carried change items l in
                inr (
                  (reorder_root change items).0 ++ delete_items (grp ∷ []) ∷ [],
                  remove_at g rooted,
                  ground (arith, other, e, empty, Found-search p rooted g grp still),
                  Carried-both (reorder_root change items).0 (delete_items (grp ∷ []) ∷ []) items
                      rooted (remove_at g rooted) l rooting
                      (Carried-remove p rooted g grp grp rooting.list still (refl, refl)),
                )
          ]
        ]
      ]
