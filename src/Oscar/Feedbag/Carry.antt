-- ===== src/Oscar/Feedbag/Carry.antt =====
-- Messages one after the other, and the three single steps that edits are made of.
use bencchat.Prelude.{
  ℕ, ◌≡◌, refl, sym, ◌∙◌, ap, subst, arith, inl, inr, Bool, none, some, List, [], ◌∷◌, ◌++◌, All,
  All-append, Bool-cases, if◌then◌else◌,
}
use bencchat.Oscar.Feedbag.{
  Item, EditOp, insert_items, update_items, delete_items, has_id, put, remove_at, upsert_item,
  delete_item, apply_server_upsert, apply_server_delete,
}
use bencchat.Oscar.Feedbag.Rows.{
  row, SameId, Apart, Unique, has_id-SameId, Found, row-put, Unique-put, row-append, Unique-append,
  row-remove_at, Unique-remove_at, All-put, All-remove_at,
}
use bencchat.Oscar.Feedbag.Replay.{
  replay, SameRows, IsPlain, IsList, Carried, row-upsert_item, row-delete_item, row-absent,
}

SameRows-upsert :
    (its a b : List Item)
    → Unique a
    → Unique b
    → SameRows a b
    → SameRows (apply_server_upsert its a) (apply_server_upsert its b)
      × Unique (apply_server_upsert its a)
      × Unique (apply_server_upsert its b)
unfolding apply_server_upsert
SameRows-upsert [] a b ua ub s = (s, ua, ub)
SameRows-upsert (it ∷ its) a b ua ub s =
    SameRows-upsert its (upsert_item it a) (upsert_item it b) (row-upsert_item 0 0 it a ua).1
      (row-upsert_item 0 0 it b ub).1
      (λ g i.
        (row-upsert_item g i it a ua).0
        ∙ ap (λ r. if has_id g i it then some it else r) (s g i)
        ∙ sym (row-upsert_item g i it b ub).0)

SameRows-delete :
    (its a b : List Item)
    → Unique a
    → Unique b
    → SameRows a b
    → SameRows (apply_server_delete its a) (apply_server_delete its b)
      × Unique (apply_server_delete its a)
      × Unique (apply_server_delete its b)
unfolding apply_server_delete
SameRows-delete [] a b ua ub s = (s, ua, ub)
SameRows-delete (it ∷ its) a b ua ub s =
    SameRows-delete its (delete_item it a) (delete_item it b) (row-delete_item 0 0 it a ua).1
      (row-delete_item 0 0 it b ub).1
      (λ g i.
        (row-delete_item g i it a ua).0
        ∙ ap (λ r. if has_id g i it then none else r) (s g i)
        ∙ sym (row-delete_item g i it b ub).0)

-- Sessions with the same rows still have the same rows after the same messages.
pub SameRows-replay :
    (ops : List EditOp) (a b : List Item)
    → Unique a
    → Unique b
    → SameRows a b
    → SameRows (replay ops a) (replay ops b) × Unique (replay ops a)
unfolding replay
SameRows-replay [] a b ua ub s = (s, ua)
SameRows-replay (insert_items its ∷ ops) a b ua ub s =
    let (s', ua', ub') = SameRows-upsert its a b ua ub s in SameRows-replay ops _ _ ua' ub' s'
SameRows-replay (update_items its ∷ ops) a b ua ub s =
    let (s', ua', ub') = SameRows-upsert its a b ua ub s in SameRows-replay ops _ _ ua' ub' s'
SameRows-replay (delete_items its ∷ ops) a b ua ub s =
    let (s', ua', ub') = SameRows-delete its a b ua ub s in SameRows-replay ops _ _ ua' ub' s'

replay-append :
    (o1 o2 : List EditOp) (a : List Item) → replay (o1 ++ o2) a ≡ replay o2 (replay o1 a)
unfolding replay
replay-append [] o2 a = refl
replay-append (insert_items its ∷ ops) o2 a = replay-append ops o2 (apply_server_upsert its a)
replay-append (update_items its ∷ ops) o2 a = replay-append ops o2 (apply_server_upsert its a)
replay-append (delete_items its ∷ ops) o2 a = replay-append ops o2 (apply_server_delete its a)

pub Carried-nothing : (a : List Item) → IsList a → Carried [] a a
unfolding replay
Carried-nothing a l = record { list = l; same = λ g i. refl }

pub Carried-both :
    (o1 o2 : List EditOp) (a b d : List Item)
    → IsList a
    → Carried o1 a b
    → Carried o2 b d
    → Carried (o1 ++ o2) a d
Carried-both o1 o2 a b d l c1 c2 = record {
  list = c2.list;
  same =
      let unique = (SameRows-replay o1 a a l.unique l.unique (λ g i. refl)).1 in
      subst (λ r. SameRows r d) (sym (replay-append o1 o2 a))
        (λ g i.
          (SameRows-replay o2 (replay o1 a) b unique c1.list.unique c1.same).0 g i ∙ c2.same g i);
}

-- One message with two rows is as good as two messages.
pub Carried-insert_two :
    (x y : Item) (a d : List Item)
    → Carried (insert_items (x ∷ []) ∷ insert_items (y ∷ []) ∷ []) a d
    → Carried (insert_items (x ∷ y ∷ []) ∷ []) a d
unfolding replay apply_server_upsert
Carried-insert_two x y a d c = record { list = c.list; same = c.same }

pub Carried-insert_three :
    (x y z : Item) (a d : List Item)
    → Carried (insert_items (x ∷ []) ∷ insert_items (y ∷ z ∷ []) ∷ []) a d
    → Carried (insert_items (x ∷ y ∷ z ∷ []) ∷ []) a d
unfolding replay apply_server_upsert
Carried-insert_three x y z a d c = record { list = c.list; same = c.same }

-- A row written over the one of its identity.
pub Carried-put :
    (p : Item → Bool) (a : List Item) (n : ℕ) (x y : Item)
    → IsList a
    → Found p a n x
    → SameId x y
    → IsPlain y
    → Carried (update_items (y ∷ []) ∷ []) a (put n y a)
unfolding replay apply_server_upsert
Carried-put p a n x y l f same plain = record {
  list = record {
    unique = Unique-put p a n x y f same l.unique;
    plain = All-put IsPlain a n y plain l.plain;
  };
  same = λ g i. (row-upsert_item g i y a l.unique).0 ∙ sym (row-put p g i a n x y f same l.unique);
}

-- A row of a new identity at the end.
pub Carried-append :
    (a : List Item) (y : Item)
    → IsList a
    → All (λ x. Apart x y) a
    → IsPlain y
    → Carried (insert_items (y ∷ []) ∷ []) a (a ++ y ∷ [])
unfolding replay apply_server_upsert
Carried-append a y l apart plain = record {
  list = record {
    unique = Unique-append a y apart l.unique;
    plain = All-append IsPlain a (y ∷ []) l.plain (plain, tt);
  };
  same = λ g i. (row-upsert_item g i y a l.unique).0 ∙ (elim (Bool-cases (has_id g i y)) [
    | inl on ↦ ground (arith, on, row-append g i a y, row-absent g i y a apart on)
    | inr off ↦ ground (arith, off, row-append g i a y)
  ]);
}

-- A row taken away; the message may hold another row of its identity.
pub Carried-remove :
    (p : Item → Bool) (a : List Item) (n : ℕ) (x y : Item)
    → IsList a
    → Found p a n x
    → SameId x y
    → Carried (delete_items (y ∷ []) ∷ []) a (remove_at n a)
unfolding replay apply_server_delete
Carried-remove p a n x y l f same = record {
  list = record {
    unique = Unique-remove_at a n l.unique;
    plain = All-remove_at IsPlain a n l.plain;
  };
  same = λ g i.
      (row-delete_item g i y a l.unique).0
      ∙ ap (λ b. if b then none else row g i a) (sym (has_id-SameId g i x y same))
      ∙ sym (row-remove_at p g i a n x f l.unique);
}
