-- ===== src/Oscar/Feedbag/Fresh.antt =====
-- New ids are new, and what the searches of an edit find is still found after its first writes.
use bencchat.Prelude.{
  ℕ, zero, suc, ◌+◌, ◌^◌, ◌≤◌, ◌<◌, ◌≡◌, ◌≢◌, refl, arith, inl, inr, true, false, Bool, not, none,
  List, [], ◌∷◌, ◌++◌, All, Bool-cases, Option-cases,
}
use bencchat.Oscar.Feedbag.{Item, is_group, search, put, greatest, next_item_id, next_group_id}
use bencchat.Oscar.Feedbag.Rows.{Apart, Found}
use bencchat.Oscar.Feedbag.Replay.{IsPlain}

abbrev pub greatest_item_id : List Item → ℕ
greatest_item_id = greatest (λ it. not (is_group it)) (λ it. it.item_id)

-- Two more item ids and one more group id are left.
pub record HasRoom (items : List Item) : Type 0 where
  pub item_room : greatest_item_id items + 2 < 2 ^ 16
  pub group_room : greatest (λ it. true) (λ it. it.group_id) items + 1 < 2 ^ 16

greatest_bounds :
    (p : Item → Bool) (f : Item → ℕ) (xs : List Item) (n : ℕ)
    → greatest p f xs ≤ n
    → All (λ x. p x ≡ true → f x ≤ n) xs
unfolding greatest
greatest_bounds p f [] n h = tt
greatest_bounds p f (x ∷ xs) n h =
    ((λ e. ground (arith, e, h)), greatest_bounds p f xs n (ground (arith, h)))

pub greatest-append :
    (xs : List Item) (y : Item) (n : ℕ)
    → greatest_item_id xs ≤ n
    → y.item_id ≤ n
    → greatest_item_id (xs ++ y ∷ []) ≤ n
unfolding greatest
greatest-append [] y n h hy = ground (arith, h, hy)
greatest-append (x ∷ xs) y n h hy =
    let rest = greatest-append xs y n (ground (arith, h)) hy in ground (arith, rest, h)

pub greatest-put :
    (p : Item → Bool) (xs : List Item) (m : ℕ) (x y : Item) (n : ℕ)
    → Found p xs m x
    → is_group x ≡ is_group y
    → x.item_id ≡ y.item_id
    → greatest_item_id xs ≤ n
    → greatest_item_id (put m y xs) ≤ n
unfolding greatest put
greatest-put p [] m x y n f kind same h = h
greatest-put p (z ∷ zs) zero x y n f kind same h = ground (arith, f.1, kind, same, h)
greatest-put p (z ∷ zs) (suc m) x y n f kind same h =
    let rest = greatest-put p zs m x y n f.1 kind same (ground (arith, h)) in
    ground (arith, rest, h)

pub All-both :
    (P Q R : Item → Type 0) (xs : List Item)
    → ((x : Item) → P x → Q x → R x)
    → All P xs
    → All Q xs
    → All R xs
All-both P Q R [] f p q = tt
All-both P Q R (x ∷ xs) f p q = (f x p.0 q.0, All-both P Q R xs f p.1 q.1)

pub fresh_item :
    (items : List Item) (y : Item)
    → greatest_item_id items + 1 < 2 ^ 16
    → All IsPlain items
    → y.item_id ≡ next_item_id items
    → All (λ x. Apart x y) items
unfolding next_item_id
fresh_item items y fits plain e =
    let top = greatest_item_id items in
    let id : y.item_id ≡ top + 1 = omega arith in
    All-both IsPlain (λ x. not (is_group x) ≡ true → x.item_id ≤ top) (λ x. Apart x y) items
      (λ x flat low same. elim (Bool-cases (is_group x)) [
        | inl group ↦ absurd (omega (arith, flat.0 group, same.1))
        | inr other ↦ absurd (omega (arith, low (ground (arith, other)), same.1))
      ])
      plain (greatest_bounds (λ it. not (is_group it)) (λ it. it.item_id) items top (omega arith))

All-only : (P Q : Item → Type 0) (xs : List Item) → ((x : Item) → P x → Q x) → All P xs → All Q xs
All-only P Q [] f p = tt
All-only P Q (x ∷ xs) f p = (f x p.0, All-only P Q xs f p.1)

pub fresh_group :
    (items : List Item) (y : Item)
    → HasRoom items
    → y.group_id ≡ next_group_id items
    → All (λ x. Apart x y) items
unfolding next_group_id
fresh_group items y room e =
    let top = greatest (λ it. true) (λ it. it.group_id) items in
    let fits = room.group_room in
    let id : y.group_id ≡ top + 1 = omega arith in
    All-only (λ x. true ≡ true → x.group_id ≤ top) (λ x. Apart x y) items
      (λ x low same. absurd (omega (arith, low refl, same.0)))
      (greatest_bounds (λ it. true) (λ it. it.group_id) items top (omega arith))

pub next_item_id_pos :
    (items : List Item) → greatest_item_id items + 1 < 2 ^ 16 → next_item_id items ≢ 0
unfolding next_item_id
next_item_id_pos items fits e = absurd (omega arith)

pub next_item_id_le : (items : List Item) → next_item_id items ≤ greatest_item_id items + 1
unfolding next_item_id
next_item_id_le items = omega arith

pub next_group_id_pos : (items : List Item) → HasRoom items → next_group_id items ≢ 0
unfolding next_group_id
next_group_id_pos items room e = let fits = room.group_room in absurd (omega arith)

-- A write to a row that neither before nor after passes leaves what was found.
pub Found-put :
    (p q : Item → Bool) (xs : List Item) (n m : ℕ) (x y y' : Item)
    → Found p xs n x
    → Found q xs m y
    → p y ≡ false
    → p y' ≡ false
    → Found p (put m y' xs) n x
unfolding put
Found-put p q [] n m x y y' f g e e' = absurd f
Found-put p q (z ∷ zs) zero zero x y y' f g e e' = absurd (ground (arith, f.0, g.1, e))
Found-put p q (z ∷ zs) zero (suc m) x y y' f g e e' = f
Found-put p q (z ∷ zs) (suc n) zero x y y' f g e e' = (e', f.1)
Found-put p q (z ∷ zs) (suc n) (suc m) x y y' f g e e' =
    (f.0, Found-put p q zs n m x y y' f.1 g.1 e e')

pub search-none :
    (p : Item → Bool) (xs : List Item) → search p xs ≡ none → All (λ x. p x ≡ false) xs
unfolding search
search-none p [] e = tt
search-none p (x ∷ xs) e = elim (Bool-cases (p x)) [
  | inl here ↦ absurd (ground (arith, here, e))
  | inr there ↦ elim (Option-cases (search p xs)) [
    | inl gone ↦ (there, search-none p xs gone)
    | inr ((m, z), found) ↦ absurd (ground (arith, there, found, e))
  ]
]
