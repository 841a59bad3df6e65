-- ===== src/Oscar/Feedbag/Moves.antt =====
-- MoveBuddy is carried by its messages: the new row first, then the old one goes.
use bencchat.Oscar.Feedbag.Edit.Move.{in_group, move_in, move_out, move_buddy}
use bencchat.Prelude.{
  ℕ, ◌≡◌, refl, sym, subst, arith, inl, inr, true, false, Bool, ◌&&◌, Option, some, List, [], ◌∷◌,
  ◌++◌, All, Bool-cases, Option-cases, if◌then◌else◌, length, ◌==◌,
}
use bencchat.Prelude.Bytes.{Bytes}
use bencchat.Prelude.Outcome.{Result, ok, err}
use bencchat.Wire.Tlv.{order}
use bencchat.Oscar.Feedbag.{
  Item, Names, EditError, EditOp, insert_items, update_items, delete_items, class_group, search,
  put, remove_at, is_group, is_root, is_buddy, has_id, with_order, new_group, next_item_id,
  next_group_id, root_index, default_group_name, not_buddy,
}
use bencchat.Oscar.Feedbag.Edit.{find_buddy, find_group_by_name, prune_group_membership}
use bencchat.Oscar.Feedbag.Rows.{
  Apart, SameId, Found, search-Found, Found-append, All-Found, Found-holds,
}
use bencchat.Oscar.Feedbag.Replay.{IsPlain, IsList, Carried}
use bencchat.Oscar.Feedbag.Carry.{Carried-nothing, Carried-both, Carried-remove}
use bencchat.Oscar.Feedbag.Fresh.{
  HasRoom, Found-put, fresh_item, fresh_group, next_item_id_pos, search-none,
}
use bencchat.Oscar.Feedbag.Reorder.{IsEdit, with_order-IsPlain, with_order-SameId}
use bencchat.Oscar.Feedbag.Removals.{prune_group_membership-Carried}
use bencchat.Oscar.Feedbag.Additions.{
  append_then_put, append_two, append_two_then_put, new_row-IsPlain, new_group-IsPlain, slot,
}

buddy_not_group : (x : Item) → is_buddy x ≡ true → (x.class_id == class_group) ≡ false
unfolding is_buddy
buddy_not_group x e = ground arith

group_not_buddy : (x : Item) → is_group x ≡ true → is_buddy x ≡ false
unfolding is_buddy is_group
group_not_buddy x e = ground arith

root_not_buddy : (x : Item) → is_root x ≡ true → is_buddy x ≡ false
unfolding is_buddy is_root
root_not_buddy x e = ground arith

module _ (names : Names) (items : List Item) (l : IsList items) (room : HasRoom items) where
  -- The first half leads to a list that still has the old row.
  abbrev Half : (Item → Bool) → ℕ → Item → Option (List EditOp × List Item) → Type 0
  Half q b old r =
      (ops : List EditOp) × (half : List Item) × (r ≡ some (ops, half))
      × Carried ops items half
      × Found q half b old

  module _ (q : Item → Bool) (b : ℕ) (old : Item) (r : ℕ) (root : Item)
      (buddies : (x : Item) → is_buddy x ≡ false → q x ≡ false) (at : Found q items b old)
      (is_old : is_buddy old ≡ true) (rooted : search is_root items ≡ some (r, root)) where
    abbrev moved : ℕ → Item
    moved gid = record old { item_id = next_item_id items; group_id = gid }

    moved-IsPlain : (gid : ℕ) → IsPlain (moved gid)
    moved-IsPlain gid =
        new_row-IsPlain (moved gid) (buddy_not_group old is_old)
          (next_item_id_pos items (slot names items l room))

    moved-fresh : (gid : ℕ) → All (λ z. Apart z (moved gid)) items
    moved-fresh gid = fresh_item items (moved gid) (slot names items l room) l.plain refl

    move_in-Half :
        (group : Bytes)
        → Half q b old (move_in names (record old { item_id = next_item_id items }) group items)
    unfolding move_in find_group_by_name root_index
    move_in-Half group =
        let p = λ (it : Item). is_group it && names.equal_fold it.name group in
        elim (Option-cases (search p items)) [
          | inr ((g, found), e) ↦
              let there = search-Found p items g found e in
              let plain = All-Found p IsPlain items g found there l.plain in
              let grouped : is_group found ≡ true =
                ground (arith, Found-holds p items g found there) in
              let more = order found.tlvs ++ next_item_id items ∷ [] in
              let grp = with_order more found in
              (
                insert_items (moved found.group_id ∷ []) ∷ update_items (grp ∷ []) ∷ [],
                put g grp items ++ moved found.group_id ∷ [],
                ground (arith, e),
                append_then_put p items g found grp (moved found.group_id) l there
                    (with_order-SameId more found) (with_order-IsPlain more found plain)
                    (moved-fresh found.group_id) (moved-IsPlain found.group_id),
                Found-append q (put g grp items) (moved found.group_id ∷ []) b old (
                    Found-put q p items b g old found grp at there
                      (buddies found (group_not_buddy found grouped))
                      (buddies grp (
                        unfold with_order is_buddy in
                        unfold is_buddy in group_not_buddy found grouped))),
              )
          | inl gone ↦
              let there = search-Found is_root items r root rooted in
              let plain = All-Found is_root IsPlain items r root there l.plain in
              let is_top = Found-holds is_root items r root there in
              let gid = next_group_id items in
              let more = order root.tlvs ++ gid ∷ [] in
              let top = with_order more root in
              let grp = with_order (next_item_id items ∷ []) (new_group gid group) in
              (
                insert_items (grp ∷ moved gid ∷ []) ∷ update_items (top ∷ []) ∷ [],
                put r top items ++ grp ∷ moved gid ∷ [],
                ground (arith, gone, rooted),
                append_two_then_put is_root items r root top grp (moved gid) l there
                    (with_order-SameId more root) (with_order-IsPlain more root plain)
                    (append_two items grp (moved gid) l
                      (unfold with_order in fresh_group items grp room refl)
                      (new_group-IsPlain gid group _) (moved-fresh gid) (moved-IsPlain gid)
                      (λ same.
                        next_item_id_pos items (slot names items l room)
                          (sym (unfold with_order in same.1)))),
                Found-append q (put r top items) (grp ∷ moved gid ∷ []) b old (
                    Found-put q is_root items b r old root top at there
                      (buddies root (root_not_buddy root is_top))
                      (buddies top (unfold with_order is_buddy in root_not_buddy root is_top))),
              )
        ]

    move_out-Carried :
        (ops : List EditOp) (half : List Item)
        → Carried ops items half
        → Found q half b old
        → Carried (move_out names old (ops, half)).0 items (move_out names old (ops, half)).1
    unfolding move_out
    move_out-Carried ops half c still =
        let p = λ (it : Item). is_buddy it && has_id old.group_id old.item_id it in
        let own : p old ≡ true = unfold has_id in ground (arith, is_old) in
        elim (Option-cases (search p half)) [
          | inl gone ↦ absurd (
              ground (
                arith,
                own,
                All-Found q (λ x. p x ≡ false) half b old still (search-none p half gone),
              ))
          | inr ((i, x), e) ↦
              let there = search-Found p half i x e in
              let hit = Found-holds p half i x there in
              let same : SameId x old =
                unfold has_id in (ground (arith, hit), ground (arith, hit)) in
              let left = remove_at i half in
              let taken = Carried-remove p half i x old c.list there same in
              let pruned = prune_group_membership names old.group_id old.item_id left in
              let made : move_out names old (ops, half)
                  ≡ (ops ++ delete_items (old ∷ []) ∷ pruned.0, pruned.1) =
                ground (arith, e) in
              subst (λ (r : List EditOp × List Item). Carried r.0 items r.1) (sym made)
                (Carried-both ops (delete_items (old ∷ []) ∷ pruned.0) items half pruned.1 l c (
                  Carried-both (delete_items (old ∷ []) ∷ []) pruned.0 half left pruned.1 c.list
                    taken
                    (prune_group_membership-Carried names old.group_id old.item_id left
                      taken.list)))
        ]

  -- In a list whose rows have distinct identities, with a root and ids left, a move is refused,
  -- changing nothing, or is carried by its messages (another session that is pushed them holds the
  -- same rows): the row in the new group, the old row, and the old group if that is empty now.
  pub move_buddy-IsEdit :
      (name group : Bytes) (r : ℕ) (root : Item)
      → search is_root items ≡ some (r, root)
      → (result : Result EditError (List EditOp) × List Item) × (move_buddy names name group items
          ≡ some result)
        × IsEdit items result
  unfolding move_buddy find_buddy
  move_buddy-IsEdit name group r root rooted =
      let trimmed = names.trim_space group in
      let target = if length trimmed == 0 then default_group_name else trimmed in
      elim (Option-cases (find_buddy names name items)) [
        | inl gone ↦ ((err not_buddy, items), ground (arith, gone), inl (not_buddy, refl))
        | inr ((b, old), e) ↦ elim (Bool-cases (in_group names old target items)) [
          | inl already ↦ (
            (ok [], items),
            ground (arith, e, already),
            inr ([], items, refl, Carried-nothing items l),
          )
          | inr elsewhere ↦
              let at = search-Found _ items b old e in
              let is_old : is_buddy old ≡ true = ground (arith, Found-holds _ items b old at) in
              let (ops, half, moving, c, still) =
                move_in-Half _ b old r root (λ x flat. ground (arith, flat)) at is_old rooted
                  target in
              (
                (ok (move_out names old (ops, half)).0, (move_out names old (ops, half)).1),
                ground (arith, e, elsewhere, moving),
                inr (
                  (move_out names old (ops, half)).0,
                  (move_out names old (ops, half)).1,
                  refl,
                  move_out-Carried _ b old r root (λ x flat. ground (arith, flat)) at is_old rooted
                      ops half c still,
                ),
              )
        ]
      ]
