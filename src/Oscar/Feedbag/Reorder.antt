-- ===== src/Oscar/Feedbag/Reorder.antt =====
-- The messages of an edit carry it: another session that is pushed them holds the same rows.
use bencchat.Prelude.{
  ℕ, ◌≡◌, refl, sym, subst, ◌⊎◌, arith, inl, inr, true, false, Bool, none, some, List, [], ◌∷◌,
  Option-cases,
}
use bencchat.Prelude.Outcome.{Result, ok, err}
use bencchat.Wire.Tlv.{order}
use bencchat.Oscar.Feedbag.{
  Item, EditError, EditOp, update_items, is_group, is_root, search, put, with_order, root_index,
  reorder_root,
}
use bencchat.Oscar.Feedbag.Rows.{SameId, Found, search-Found, Found-holds, All-Found}
use bencchat.Oscar.Feedbag.Replay.{IsPlain, IsList, Carried}
use bencchat.Oscar.Feedbag.Carry.{Carried-nothing, Carried-put}
use bencchat.Oscar.Feedbag.Fresh.{Found-put}

-- An edit is refused and changes nothing, or it is carried by its messages.
abbrev pub IsEdit : List Item → Result EditError (List EditOp) × List Item → Type 0
IsEdit items r =
    ((e : EditError) × (r ≡ (err e, items)))
    ⊎ ((ops : List EditOp) × (left : List Item) × (r ≡ (ok ops, left)) × Carried ops items left)

pub root_passes_no_group : (x : Item) → is_root x ≡ true → is_group x ≡ false
unfolding is_root is_group
root_passes_no_group x e = ground arith

pub with_order-IsPlain : (ids : List ℕ) (x : Item) → IsPlain x → IsPlain (with_order ids x)
unfolding with_order is_group
with_order-IsPlain ids x p = p

pub with_order-SameId : (ids : List ℕ) (x : Item) → SameId x (with_order ids x)
unfolding with_order
with_order-SameId ids x = (refl, refl)

reorder_none :
    (change : List ℕ → List ℕ) (items : List Item)
    → search is_root items ≡ none
    → reorder_root change items ≡ ([], items)
unfolding reorder_root root_index
reorder_none change items e = ground (arith, e)

reorder_some :
    (change : List ℕ → List ℕ) (items : List Item) (r : ℕ) (root : Item)
    → search is_root items ≡ some (r, root)
    → reorder_root change items ≡ (
      update_items (with_order (change (order root.tlvs)) root ∷ []) ∷ [],
      put r (with_order (change (order root.tlvs)) root) items,
    )
unfolding reorder_root root_index
reorder_some change items r root e = ground (arith, e)

pub reorder_root-Carried :
    (change : List ℕ → List ℕ) (items : List Item)
    → IsList items
    → Carried (reorder_root change items).0 items (reorder_root change items).1
unfolding reorder_root root_index
reorder_root-Carried change items l = elim (Option-cases (search is_root items)) [
  | inl gone ↦
      subst (λ (r : List EditOp × List Item). Carried r.0 items r.1)
        (sym (reorder_none change items gone)) (Carried-nothing items l)
  | inr ((r, root), e) ↦
      let found = search-Found is_root items r root e in
      let plain = All-Found is_root IsPlain items r root found l.plain in
      subst (λ (q : List EditOp × List Item). Carried q.0 items q.1)
        (sym (reorder_some change items r root e))
        (Carried-put is_root items r root (with_order (change (order root.tlvs)) root) l found
          (with_order-SameId _ root) (with_order-IsPlain _ root plain))
]

-- A group that was found before the root was rewritten is found after it.
pub reorder_root-Found :
    (p : Item → Bool) (change : List ℕ → List ℕ) (items : List Item) (n : ℕ) (x : Item)
    → ((y : Item) → is_group y ≡ false → p y ≡ false)
    → Found p items n x
    → Found p (reorder_root change items).1 n x
unfolding root_index
reorder_root-Found p change items n x only f = elim (Option-cases (search is_root items)) [
  | inl gone ↦
      subst (λ (r : List EditOp × List Item). Found p r.1 n x)
        (sym (reorder_none change items gone)) f
  | inr ((r, root), e) ↦
      let found = search-Found is_root items r root e in
      let flat = root_passes_no_group root (Found-holds is_root items r root found) in
      subst (λ (q : List EditOp × List Item). Found p q.1 n x)
        (sym (reorder_some change items r root e))
        (Found-put p is_root items n r x root (with_order (change (order root.tlvs)) root) f found
          (only root flat) (only _ (unfold with_order is_group in flat)))
]
