-- ===== src/Oscar/Feedbag/Replay.antt =====
-- What another session of the account is pushed: the rows of each message, in the order they were
-- sent. An edit is carried by its messages when that session ends up with the same rows.
use bencchat.Prelude.{
  false, ◌==◌, ℕ, ◌≡◌, ◌≢◌, refl, sym, subst, arith, inl, inr, true, none, some, List, [], ◌∷◌,
  ◌++◌, All, Bool-cases, Option-cases, if◌then◌else◌,
}
use bencchat.Oscar.Feedbag.{
  Item, EditOp, insert_items, update_items, delete_items, is_group, class_group, has_id, search,
  put, remove_at, upsert_item, delete_item, apply_server_upsert, apply_server_delete,
}
use bencchat.Oscar.Feedbag.Rows.{
  row, SameId, Apart, Unique, has_id-SameId, search-Found, Found-holds, row-put, Unique-put,
  row-append, Unique-append, row-remove_at, Unique-remove_at,
}

unfoldable pub replay : List EditOp → List Item → List Item
replay [] items = items
replay (insert_items its ∷ ops) items = replay ops (apply_server_upsert its items)
replay (update_items its ∷ ops) items = replay ops (apply_server_upsert its items)
replay (delete_items its ∷ ops) items = replay ops (apply_server_delete its items)

abbrev pub SameRows : List Item → List Item → Type 0
SameRows a b = (g i : ℕ) → row g i a ≡ row g i b

-- A group row has item id 0, and a row that is neither a group nor the root has another.
abbrev pub IsPlain : Item → Type 0
IsPlain x =
    (is_group x ≡ true → x.item_id ≡ 0) × ((x.class_id == class_group) ≡ false → x.item_id ≢ 0)

pub record IsList (items : List Item) : Type 0 where
  pub unique : Unique items
  pub plain : All IsPlain items

-- The messages `ops` take a session from the rows `a` to the rows `b`.
pub record Carried (ops : List EditOp) (a b : List Item) : Type 0 where
  pub list : IsList b
  pub same : SameRows (replay ops a) b

has_own_id : (it : Item) → has_id it.group_id it.item_id it ≡ true
unfolding has_id
has_own_id it = ground arith

id_SameId : (it x : Item) → has_id it.group_id it.item_id x ≡ true → SameId x it
unfolding has_id
id_SameId it x h = (ground arith, ground arith)

-- No row is at an identity that the search does not find.
unfound :
    (it : Item) (xs : List Item)
    → search (has_id it.group_id it.item_id) xs ≡ none
    → All (λ x. Apart x it) xs
unfolding search has_id
unfound it [] e = tt
unfound it (x ∷ xs) e = elim (Bool-cases (has_id it.group_id it.item_id x)) [
  | inl here ↦ absurd (ground (arith, here, e))
  | inr there ↦ elim (Option-cases (search (has_id it.group_id it.item_id) xs)) [
    | inl gone ↦ ((λ s. ground (arith, there, s.0, s.1)), unfound it xs gone)
    | inr ((m, z), found) ↦ absurd (ground (arith, there, found, e))
  ]
]

pub row-absent :
    (g i : ℕ) (y : Item) (xs : List Item)
    → All (λ x. Apart x y) xs
    → has_id g i y ≡ true
    → row g i xs ≡ none
unfolding row has_id
row-absent g i y [] a h = refl
row-absent g i y (x ∷ xs) a h = elim (Bool-cases (has_id g i x)) [
  | inl on ↦ absurd (a.0 (ground (arith, on, h), ground (arith, on, h)))
  | inr off ↦ ground (arith, off, row-absent g i y xs a.1 h)
]

pub row-upsert_item :
    (g i : ℕ) (it : Item) (items : List Item)
    → Unique items
    → (row g i (upsert_item it items) ≡ (if has_id g i it then some it else row g i items))
      × Unique (upsert_item it items)
unfolding upsert_item
row-upsert_item g i it items u =
    let p = has_id it.group_id it.item_id in
    elim (Option-cases (search p items)) [
      | inl gone ↦
          let apart = unfound it items gone in
          let put_in : upsert_item it items ≡ items ++ it ∷ [] = ground (arith, gone) in
          (
            ground (arith, put_in, row-append g i items it, row-absent g i it items apart),
            subst Unique (sym put_in) (Unique-append items it apart u),
          )
      | inr ((n, x), e) ↦
          let found = search-Found p items n x e in
          let same = id_SameId it x (Found-holds p items n x found) in
          let put_in : upsert_item it items ≡ put n it items = ground (arith, e) in
          (
            ground (arith, put_in, row-put p g i items n x it found same u),
            subst Unique (sym put_in) (Unique-put p items n x it found same u),
          )
    ]

pub row-delete_item :
    (g i : ℕ) (it : Item) (items : List Item)
    → Unique items
    → (row g i (delete_item it items) ≡ (if has_id g i it then none else row g i items))
      × Unique (delete_item it items)
unfolding delete_item
row-delete_item g i it items u =
    let p = has_id it.group_id it.item_id in
    elim (Option-cases (search p items)) [
      | inl gone ↦
          let apart = unfound it items gone in
          let left : delete_item it items ≡ items = ground (arith, gone) in
          (ground (arith, left, row-absent g i it items apart), subst Unique (sym left) u)
      | inr ((n, x), e) ↦
          let found = search-Found p items n x e in
          let same = id_SameId it x (Found-holds p items n x found) in
          let gone : delete_item it items ≡ remove_at n items = ground (arith, e) in
          (
            ground
                (arith, gone, row-remove_at p g i items n x found u, has_id-SameId g i x it same),
            subst Unique (sym gone) (Unique-remove_at items n u),
          )
    ]
