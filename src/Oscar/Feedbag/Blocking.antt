-- ===== src/Oscar/Feedbag/Blocking.antt =====
-- BlockBuddy is carried by its messages: the privacy mode first, then the entry.
use bencchat.Prelude.{
  ◌+◌, ◌^◌, ◌<◌, ◌≡◌, refl, arith, inl, inr, List, [], ◌∷◌, ◌++◌, Bool-cases, Option-cases, length,
  ◌==◌,
}
use bencchat.Prelude.Bytes.{Bytes}
use bencchat.Wire.Tlv.{set, uint8_of, attributes_pd_mode}
use bencchat.Oscar.Feedbag.{
  Item, Names, insert_items, update_items, class_pdinfo, search, put, is_group, next_item_id,
  name_required, already_blocked,
}
use bencchat.Oscar.Feedbag.Edit.{
  find_deny, new_deny, new_pdinfo, pd_mode_tlv, permits_all, enforce_deny, block_buddy,
}
use bencchat.Oscar.Feedbag.Rows.{search-Found, All-Found}
use bencchat.Oscar.Feedbag.Replay.{IsPlain, IsList, Carried}
use bencchat.Oscar.Feedbag.Carry.{Carried-nothing, Carried-both, Carried-put, Carried-append}
use bencchat.Oscar.Feedbag.Fresh.{
  greatest_item_id, greatest-append, greatest-put, HasRoom, fresh_item, next_item_id_pos,
  next_item_id_le,
}
use bencchat.Oscar.Feedbag.Reorder.{IsEdit}
use bencchat.Oscar.Feedbag.Additions.{new_row-IsPlain, slot}

module _ (names : Names) (items : List Item) (l : IsList items) (room : HasRoom items) where
  -- The privacy mode is carried, and leaves an item id.
  enforce_deny-Carried :
      Carried (enforce_deny names items).0 items (enforce_deny names items).1
      × (greatest_item_id (enforce_deny names items).1 + 1 < 2 ^ 16)
  unfolding enforce_deny is_group
  enforce_deny-Carried =
      let p = λ (it : Item). it.class_id == class_pdinfo in
      let two_more = room.item_room in
      elim (Option-cases (search p items)) [
        | inl gone ↦
            let item = new_pdinfo (next_item_id items) in
            let made : enforce_deny names items
                ≡ (insert_items (item ∷ []) ∷ [], items ++ item ∷ []) =
              ground (arith, gone) in
            rw made (
              Carried-append items item l
                  (fresh_item items item (slot names items l room) l.plain refl)
                  (new_row-IsPlain item refl (next_item_id_pos items (slot names items l room))),
              omega (
                arith,
                greatest-append items item (greatest_item_id items + 1) (omega arith)
                    (next_item_id_le items),
              ),
            )
        | inr ((i, found), e) ↦
            elim (Bool-cases (permits_all (uint8_of attributes_pd_mode found.tlvs))) [
              | inr kept ↦
                  let idle : enforce_deny names items ≡ ([], items) = ground (arith, e, kept) in
                  rw idle (Carried-nothing items l, slot names items l room)
              | inl open_to_all ↦
                  let item = record found { tlvs = set pd_mode_tlv found.tlvs } in
                  let made : enforce_deny names items
                      ≡ (update_items (item ∷ []) ∷ [], put i item items) =
                    ground (arith, e, open_to_all) in
                  let at = search-Found p items i found e in
                  let plain = All-Found p IsPlain items i found at l.plain in
                  rw made (
                    Carried-put p items i found item l at (refl, refl) (unfold is_group in plain),
                    omega (
                      arith,
                      greatest-put p items i found item (greatest_item_id items) at refl refl
                          (omega arith),
                    ),
                  )
            ]
      ]

  -- In a list that has ids left, blocking is refused, changing nothing, or is carried by its messages, which first make sure that
  -- the privacy mode reads the deny list.
  pub block_buddy-IsEdit :
      (screen_name : Bytes) → IsEdit items (block_buddy names screen_name items)
  unfolding block_buddy
  block_buddy-IsEdit screen_name =
      let name = names.trim_space screen_name in
      elim (Bool-cases (length name == 0)) [
        | inl empty ↦ inl (name_required, ground (arith, empty))
        | inr named ↦ elim (Option-cases (find_deny names name items)) [
          | inr (b, e) ↦ inl (already_blocked, ground (arith, named, e))
          | inl absent ↦
              let (mode, fits) = enforce_deny-Carried in
              let enforced = (enforce_deny names items).1 in
              let deny = new_deny (next_item_id enforced) name in
              inr (
                (enforce_deny names items).0 ++ insert_items (deny ∷ []) ∷ [],
                enforced ++ deny ∷ [],
                ground (arith, named, absent),
                Carried-both (enforce_deny names items).0 (insert_items (deny ∷ []) ∷ []) items
                    enforced (enforced ++ deny ∷ []) l mode
                    (Carried-append enforced deny mode.list
                      (fresh_item enforced deny fits mode.list.plain refl)
                      (new_row-IsPlain deny refl (next_item_id_pos enforced fits))),
              )
        ]
      ]
