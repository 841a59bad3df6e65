-- ===== src/Oscar/Feedbag/Additions.antt =====
-- AddBuddy, BlockBuddy and EnsureBaseStructure are carried by their messages.
use bencchat.Prelude.{
  ◌^◌, ◌<◌, ℕ, ◌+◌, ◌≡◌, ◌≢◌, refl, sym, subst, arith, inl, inr, false, Bool, none, List, [], ◌∷◌,
  ◌++◌, append_assoc, All, All-append, Bool-cases, Option-cases, if◌then◌else◌, length, ◌==◌,
}
use bencchat.Prelude.Bytes.{Bytes}
use bencchat.Wire.Tlv.{order}
use bencchat.Oscar.Feedbag.{
  name_required, already_buddy, class_group, new_root, new_group, next_item_id, next_group_id, Item,
  Names, EditOp, insert_items, update_items, is_group, is_root, search, put, with_order, root_index,
  default_group_name,
}
use bencchat.Oscar.Feedbag.Edit.{find_buddy, find_group_by_name, add_to_group, add_buddy, new_buddy}
use bencchat.Oscar.Feedbag.Rows.{
  Apart, SameId, Found, search-Found, Found-append, put-append, All-Found,
}
use bencchat.Oscar.Feedbag.Replay.{IsPlain, IsList, Carried}
use bencchat.Oscar.Feedbag.Carry.{
  Carried-both, Carried-put, Carried-append, Carried-insert_two, Carried-insert_three,
}
use bencchat.Oscar.Feedbag.Fresh.{
  All-both, search-none, greatest_item_id, HasRoom, fresh_item, fresh_group, next_item_id_pos,
  next_group_id_pos,
}
use bencchat.Oscar.Feedbag.Reorder.{IsEdit, with_order-IsPlain, with_order-SameId}

-- A row goes in at the end, and a row that was there is rewritten.
pub append_then_put :
    (p : Item → Bool) (items : List Item) (n : ℕ) (x x' y : Item)
    → IsList items
    → Found p items n x
    → SameId x x'
    → IsPlain x'
    → All (λ z. Apart z y) items
    → IsPlain y
    → Carried (insert_items (y ∷ []) ∷ update_items (x' ∷ []) ∷ []) items (put n x' items ++ y ∷ [])
append_then_put p items n x x' y l f same plain apart plain_y =
    let added = Carried-append items y l apart plain_y in
    subst (Carried (insert_items (y ∷ []) ∷ update_items (x' ∷ []) ∷ []) items)
      (put-append p items (y ∷ []) n x x' f)
      (Carried-both (insert_items (y ∷ []) ∷ []) (update_items (x' ∷ []) ∷ []) items
        (items ++ y ∷ []) (put n x' (items ++ y ∷ [])) l added
        (Carried-put p (items ++ y ∷ []) n x x' added.list (Found-append p items (y ∷ []) n x f)
          same plain))

-- Two rows go in at the end.
pub append_two :
    (items : List Item) (x y : Item)
    → IsList items
    → All (λ z. Apart z x) items
    → IsPlain x
    → All (λ z. Apart z y) items
    → IsPlain y
    → Apart x y
    → Carried (insert_items (x ∷ y ∷ []) ∷ []) items (items ++ x ∷ y ∷ [])
append_two items x y l ax px ay py between =
    let first = Carried-append items x l ax px in
    subst (Carried (insert_items (x ∷ y ∷ []) ∷ []) items) (append_assoc items (x ∷ []) (y ∷ [])) (
      Carried-insert_two x y items ((items ++ x ∷ []) ++ y ∷ []) (
        Carried-both (insert_items (x ∷ []) ∷ []) (insert_items (y ∷ []) ∷ []) items
          (items ++ x ∷ []) ((items ++ x ∷ []) ++ y ∷ []) l first
          (Carried-append (items ++ x ∷ []) y first.list
            (All-append (λ z. Apart z y) items (x ∷ []) ay (between, tt)) py)))

-- Two rows go in at the end, and a row that was there is rewritten.
pub append_two_then_put :
    (p : Item → Bool) (items : List Item) (n : ℕ) (r r' x y : Item)
    → IsList items
    → Found p items n r
    → SameId r r'
    → IsPlain r'
    → Carried (insert_items (x ∷ y ∷ []) ∷ []) items (items ++ x ∷ y ∷ [])
    → Carried
        (insert_items (x ∷ y ∷ []) ∷ update_items (r' ∷ []) ∷ [])
        items
        (put n r' items ++ x ∷ y ∷ [])
append_two_then_put p items n r r' x y l f same plain added =
    subst (Carried (insert_items (x ∷ y ∷ []) ∷ update_items (r' ∷ []) ∷ []) items)
      (put-append p items (x ∷ y ∷ []) n r r' f)
      (Carried-both (insert_items (x ∷ y ∷ []) ∷ []) (update_items (r' ∷ []) ∷ []) items
        (items ++ x ∷ y ∷ []) (put n r' (items ++ x ∷ y ∷ [])) l added
        (Carried-put p (items ++ x ∷ y ∷ []) n r r' added.list
          (Found-append p items (x ∷ y ∷ []) n r f) same plain))

-- No row is at the root's identity where there is no root.
fresh_root :
    (items : List Item)
    → All IsPlain items
    → search is_root items ≡ none
    → All (λ z. Apart z new_root) items
fresh_root items plain gone =
    All-both IsPlain (λ z. is_root z ≡ false) (λ z. Apart z new_root) items
      (λ z flat other same. elim (Bool-cases (z.class_id == class_group)) [
        | inl group ↦ unfold is_root in absurd (ground (arith, group, same.0, other))
        | inr row ↦ flat.1 row same.1
      ])
      plain (search-none is_root items gone)

pub new_row-IsPlain : (x : Item) → (x.class_id == class_group) ≡ false → x.item_id ≢ 0 → IsPlain x
unfolding is_group
new_row-IsPlain x kind id = ((λ e. absurd (ground (arith, kind, e))), λ e. id)

pub new_group-IsPlain :
    (gid : ℕ) (name : Bytes) (ids : List ℕ) → IsPlain (with_order ids (new_group gid name))
unfolding is_group with_order
new_group-IsPlain gid name ids = ((λ e. refl), λ e. absurd (ground (arith, e)))

new_root-IsPlain : (ids : List ℕ) → IsPlain (with_order ids new_root)
unfolding is_group with_order
new_root-IsPlain ids = ((λ e. refl), λ e. absurd (ground (arith, e)))

module _ (names : Names) (items : List Item) (l : IsList items) (room : HasRoom items) where
  pub slot : greatest_item_id items + 1 < 2 ^ 16
  slot = let two_more = room.item_room in omega arith

  module _ (name target : Bytes) where
    abbrev pub buddy_in : ℕ → Item
    buddy_in gid = record (new_buddy names 0 (next_item_id items) name) { group_id = gid }

    buddy_in-IsPlain : (gid : ℕ) → IsPlain (buddy_in gid)
    buddy_in-IsPlain gid = new_row-IsPlain (buddy_in gid) refl (next_item_id_pos items slot)

    buddy_in-fresh : (gid : ℕ) → All (λ z. Apart z (buddy_in gid)) items
    buddy_in-fresh gid = fresh_item items (buddy_in gid) slot l.plain refl

    abbrev gid : ℕ
    gid = next_group_id items

    abbrev grp : Item
    grp = with_order (next_item_id items ∷ []) (new_group gid target)

    grp-fresh : All (λ z. Apart z grp) items
    grp-fresh = unfold with_order in fresh_group items grp room refl

    group_and_buddy :
        Carried
          (insert_items (grp ∷ buddy_in gid ∷ []) ∷ [])
          items
          (items ++ grp ∷ buddy_in gid ∷ [])
    group_and_buddy =
        append_two items grp (buddy_in gid) l grp-fresh (new_group-IsPlain gid target _)
          (buddy_in-fresh gid) (buddy_in-IsPlain gid)
          (λ same. next_item_id_pos items slot (sym (unfold with_order in same.1)))

    abbrev Adds : List EditOp × List Item → Type 0
    Adds r = Carried r.0 items r.1

    abbrev root_in : Item
    root_in = with_order (gid ∷ []) new_root

    -- The new root, and then the group and the buddy.
    root_group_and_buddy :
        search is_root items ≡ none
        → Carried
            (insert_items (root_in ∷ grp ∷ buddy_in gid ∷ []) ∷ [])
            items
            ((items ++ root_in ∷ []) ++ grp ∷ buddy_in gid ∷ [])
    root_group_and_buddy gone =
        let apart_root : All (λ z. Apart z root_in) items =
          unfold with_order in fresh_root items l.plain gone in
        let first = Carried-append items root_in l apart_root (new_root-IsPlain (gid ∷ [])) in
        let pos = next_group_id_pos items room in
        Carried-insert_three root_in grp (buddy_in gid) items
          ((items ++ root_in ∷ []) ++ grp ∷ buddy_in gid ∷ [])
          (Carried-both (insert_items (root_in ∷ []) ∷ [])
            (insert_items (grp ∷ buddy_in gid ∷ []) ∷ []) items (items ++ root_in ∷ [])
            ((items ++ root_in ∷ []) ++ grp ∷ buddy_in gid ∷ []) l first
            (append_two (items ++ root_in ∷ []) grp (buddy_in gid) first.list
              (All-append (λ z. Apart z grp) items (root_in ∷ []) grp-fresh
                ((λ same. pos (sym (unfold with_order in same.0))), tt))
              (new_group-IsPlain gid target _)
              (All-append (λ z. Apart z (buddy_in gid)) items (root_in ∷ []) (buddy_in-fresh gid)
                ((λ same. pos (sym (unfold with_order in same.0))), tt))
              (buddy_in-IsPlain gid)
              (λ same. next_item_id_pos items slot (sym (unfold with_order in same.1)))))

    new_group-Carried :
        Adds (add_to_group names (new_buddy names 0 (next_item_id items) name) none target items)
    unfolding add_to_group root_index
    new_group-Carried = elim (Option-cases (search is_root items)) [
      | inr ((r, root), e) ↦
          let at = search-Found is_root items r root e in
          let plain = All-Found is_root IsPlain items r root at l.plain in
          let more = order root.tlvs ++ gid ∷ [] in
          let made : add_to_group names (new_buddy names 0 (next_item_id items) name) none target
                items
              ≡ (
                insert_items (grp ∷ buddy_in gid ∷ [])
                    ∷ update_items (with_order more root ∷ [])
                    ∷ [],
                put r (with_order more root) items ++ grp ∷ buddy_in gid ∷ [],
              ) =
            ground (arith, e) in
          subst Adds (sym made) (
            append_two_then_put is_root items r root (with_order more root) grp (buddy_in gid) l at
              (with_order-SameId more root) (with_order-IsPlain more root plain) group_and_buddy)
      | inl gone ↦
          let made : add_to_group names (new_buddy names 0 (next_item_id items) name) none target
                items
              ≡ (
                insert_items (root_in ∷ grp ∷ buddy_in gid ∷ []) ∷ [],
                (items ++ root_in ∷ []) ++ grp ∷ buddy_in gid ∷ [],
              ) =
            ground (arith, gone) in
          subst Adds (sym made) (root_group_and_buddy gone)
    ]

    abbrev row_in : Item
    row_in = new_buddy names 0 (next_item_id items) name

    add_to_group-Carried :
        Adds (add_to_group names row_in (find_group_by_name names target items) target items)
    unfolding find_group_by_name root_index add_to_group
    add_to_group-Carried = elim (Option-cases (find_group_by_name names target items)) [
      | inr ((g, found), e) ↦
          let at = search-Found _ items g found e in
          let plain = All-Found _ IsPlain items g found at l.plain in
          let more = order found.tlvs ++ next_item_id items ∷ [] in
          subst (λ o. Adds (add_to_group names row_in o target items)) (sym e)
            (append_then_put _ items g found (with_order more found) (buddy_in found.group_id) l at
              (with_order-SameId more found) (with_order-IsPlain more found plain)
              (buddy_in-fresh found.group_id) (buddy_in-IsPlain found.group_id))
      | inl gone ↦
          subst (λ o. Adds (add_to_group names row_in o target items)) (sym gone) new_group-Carried
    ]

  -- In a list whose rows have distinct identities and that has ids left, adding a buddy is refused,
  -- changing nothing, or is carried by its messages (another session that is pushed them holds the
  -- same rows): into a group that is there, into a new group, or into a new group under a new root.
  pub add_buddy-IsEdit :
      (screen_name group : Bytes) → IsEdit items (add_buddy names screen_name group items)
  unfolding add_buddy
  add_buddy-IsEdit screen_name group =
      let name = names.trim_space screen_name in
      let target = if length group == 0 then default_group_name else group in
      elim (Bool-cases (length name == 0)) [
        | inl empty ↦ inl (name_required, ground (arith, empty))
        | inr named ↦ elim (Option-cases (find_buddy names name items)) [
          | inr (b, e) ↦ inl (already_buddy, ground (arith, named, e))
          | inl absent ↦
              let r =
                add_to_group names (row_in name target) (find_group_by_name names target items)
                  target items in
              inr (r.0, r.1, ground (arith, named, absent), add_to_group-Carried name target)
        ]
      ]
