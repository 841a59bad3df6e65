-- ===== src/Oscar/Feedbag/Rows.antt =====
-- A list of rows as a map from identities: what writing, adding and removing a row does to it.
use bencchat.Prelude.{
  ap, subst, ◌∙◌, ℕ, zero, suc, ◌≡◌, refl, sym, arith, inl, inr, Bool, true, false, Option, none,
  some, List, [], ◌∷◌, ◌++◌, if◌then◌else◌, All, All-append, Bool-cases, Option-cases,
}
use bencchat.Oscar.Feedbag.{Item, has_id, search, put, remove_at}

-- The row with an identity.
unfoldable pub row : ℕ → ℕ → List Item → Option Item
row g i [] = none
row g i (x ∷ xs) = if has_id g i x then some x else row g i xs

abbrev pub SameId : Item → Item → Type 0
SameId x y = (x.group_id ≡ y.group_id) × (x.item_id ≡ y.item_id)

abbrev pub Apart : Item → Item → Type 0
Apart x y = SameId x y → ⊥

-- No two rows have one identity.
abbrev pub Unique : List Item → Type 0
Unique [] = Unit {0}
Unique (x ∷ xs) = All (Apart x) xs × Unique xs

pub has_id-SameId : (g i : ℕ) (x y : Item) → SameId x y → has_id g i x ≡ has_id g i y
unfolding has_id
has_id-SameId g i x y (a, b) = ground (arith, a, b)

pub has_id-both : (g i : ℕ) (x y : Item) → has_id g i x ≡ true → has_id g i y ≡ true → SameId x y
unfolding has_id
has_id-both g i x y a b = (ground arith, ground arith)

abbrev hit : ℕ → Item → Option (ℕ × Item)
hit n x = some (n, x)

pub All-put :
    (P : Item → Type 0) (xs : List Item) (n : ℕ) (y : Item) → P y → All P xs → All P (put n y xs)
unfolding put
All-put P [] n y h a = tt
All-put P (x ∷ xs) zero y h a = (h, a.1)
All-put P (x ∷ xs) (suc n) y h a = (a.0, All-put P xs n y h a.1)

pub All-remove_at : (P : Item → Type 0) (xs : List Item) (n : ℕ) → All P xs → All P (remove_at n xs)
unfolding remove_at
All-remove_at P [] n a = tt
All-remove_at P (x ∷ xs) zero a = a.1
All-remove_at P (x ∷ xs) (suc n) a = (a.0, All-remove_at P xs n a.1)

All-weaken : (P Q : Item → Type 0) (xs : List Item) → ((x : Item) → P x → Q x) → All P xs → All Q xs
All-weaken P Q [] f a = tt
All-weaken P Q (x ∷ xs) f a = (f x a.0, All-weaken P Q xs f a.1)

-- A new row at the end.
pub row-append :
    (g i : ℕ) (xs : List Item) (y : Item)
    → row g i (xs ++ y ∷ [])
      ≡ (elim (row g i xs) [ none ↦ if has_id g i y then some y else none | some x ↦ some x ])
unfolding row
row-append g i [] y = refl
row-append g i (x ∷ xs) y = ground (arith, row-append g i xs y)

pub Unique-append :
    (xs : List Item) (y : Item) → All (λ x. Apart x y) xs → Unique xs → Unique (xs ++ y ∷ [])
Unique-append [] y a u = (tt, tt)
Unique-append (x ∷ xs) y a u =
    (All-append (Apart x) xs (y ∷ []) u.0 (a.0, tt), Unique-append xs y a.1 u.1)

pub row-Apart :
    (g i : ℕ) (y : Item) (xs : List Item)
    → has_id g i y ≡ true
    → All (Apart y) xs
    → row g i xs ≡ none
unfolding row
row-Apart g i y [] h a = refl
row-Apart g i y (x ∷ xs) h a = elim (Bool-cases (has_id g i x)) [
  | inl on ↦ absurd (a.0 (has_id-both g i y x h on))
  | inr off ↦ ground (arith, off, row-Apart g i y xs h a.1)
]

hit_index : {m n : ℕ} {x y : Item} → hit m x ≡ hit n y → m ≡ n
hit_index e = cc

hit_row : {m n : ℕ} {x y : Item} → hit m x ≡ hit n y → x ≡ y
hit_row e = cc

module _ (p : Item → Bool) where
  -- The row at index `n` is the first that passes.
  abbrev pub Found : List Item → ℕ → Item → Type 0
  Found [] n x = ⊥
  Found (y ∷ ys) zero x = (p y ≡ true) × (y ≡ x)
  Found (y ∷ ys) (suc n) x = (p y ≡ false) × Found ys n x

  pub search-Found : (xs : List Item) (n : ℕ) (x : Item) → search p xs ≡ some (n, x) → Found xs n x
  unfolding search
  search-Found [] n x e = cc
  search-Found (y ∷ ys) n x e = elim (Bool-cases (p y)) [
    | inl here ↦
        let same : hit 0 y ≡ hit n x = ground (arith, here, e) in
        subst (λ m. Found (y ∷ ys) m x) (hit_index same) (here, hit_row same)
    | inr there ↦ elim (Option-cases (search p ys)) [
      | inl gone ↦ absurd (ground (arith, there, gone, e))
      | inr ((m, z), found) ↦
          let same : hit (suc m) z ≡ hit n x = ground (arith, there, found, e) in
          subst (λ k. Found (y ∷ ys) k x) (hit_index same)
            (there, subst (Found ys m) (hit_row same) (search-Found ys m z found))
    ]
  ]

  pub Found-search : (xs : List Item) (n : ℕ) (x : Item) → Found xs n x → search p xs ≡ some (n, x)
  unfolding search
  Found-search [] n x f = absurd f
  Found-search (y ∷ ys) zero x f = ground (arith, f.0, f.1)
  Found-search (y ∷ ys) (suc n) x f = ground (arith, f.0, Found-search ys n x f.1)

  pub Found-holds : (xs : List Item) (n : ℕ) (x : Item) → Found xs n x → p x ≡ true
  Found-holds [] n x f = absurd f
  Found-holds (y ∷ ys) zero x f = ground (arith, f.0, f.1)
  Found-holds (y ∷ ys) (suc n) x f = Found-holds ys n x f.1

  pub Found-append : (xs ys : List Item) (n : ℕ) (x : Item) → Found xs n x → Found (xs ++ ys) n x
  Found-append [] ys n x f = absurd f
  Found-append (z ∷ zs) ys zero x f = f
  Found-append (z ∷ zs) ys (suc n) x f = (f.0, Found-append zs ys n x f.1)

  pub put-append :
      (xs ys : List Item) (n : ℕ) (x y : Item)
      → Found xs n x
      → put n y (xs ++ ys) ≡ put n y xs ++ ys
  unfolding put
  put-append [] ys n x y f = absurd f
  put-append (z ∷ zs) ys zero x y f = refl
  put-append (z ∷ zs) ys (suc n) x y f = ap (◌∷◌ z) (put-append zs ys n x y f.1)

  pub All-Found :
      (P : Item → Type 0) (xs : List Item) (n : ℕ) (x : Item) → Found xs n x → All P xs → P x
  All-Found P [] n x f a = absurd f
  All-Found P (y ∷ ys) zero x f a = subst P f.1 a.0
  All-Found P (y ∷ ys) (suc n) x f a = All-Found P ys n x f.1 a.1

  -- Writing a row of the same identity where it was found.
  pub row-put :
      (g i : ℕ) (xs : List Item) (n : ℕ) (x y : Item)
      → Found xs n x
      → SameId x y
      → Unique xs
      → row g i (put n y xs) ≡ (if has_id g i y then some y else row g i xs)
  unfolding put row
  row-put g i [] n x y f same u = absurd f
  row-put g i (z ∷ zs) zero x y f same u = ground (arith, has_id-SameId g i x y same, f.1)
  row-put g i (z ∷ zs) (suc n) x y f same u = elim (Bool-cases (has_id g i z)) [
    | inr off ↦ ground (arith, off, row-put g i zs n x y f.1 same u.1)
    | inl on ↦ elim (Bool-cases (has_id g i y)) [
      | inr not_y ↦ ground (arith, on, not_y)
      | inl is_y ↦ absurd (
          All-Found (Apart z) zs n x f.1 u.0
            (has_id-both g i z x on (has_id-SameId g i x y same ∙ is_y)))
    ]
  ]

  pub Unique-put :
      (xs : List Item) (n : ℕ) (x y : Item)
      → Found xs n x
      → SameId x y
      → Unique xs
      → Unique (put n y xs)
  unfolding put
  Unique-put [] n x y f same u = absurd f
  Unique-put (z ∷ zs) zero x y f same u = (
    All-weaken (Apart z) (Apart y) zs
        (λ w apart. λ e. apart (
          ap (λ (t : Item). t.group_id) f.1 ∙ same.0 ∙ e.0,
          ap (λ (t : Item). t.item_id) f.1 ∙ same.1 ∙ e.1,
        ))
        u.0,
    u.1,
  )
  Unique-put (z ∷ zs) (suc n) x y f same u = (
    All-put (Apart z) zs n y
        (λ e. All-Found (Apart z) zs n x f.1 u.0 (e.0 ∙ sym same.0, e.1 ∙ sym same.1)) u.0,
    Unique-put zs n x y f.1 same u.1,
  )

  -- Taking a row away where it was found.
  pub row-remove_at :
      (g i : ℕ) (xs : List Item) (n : ℕ) (x : Item)
      → Found xs n x
      → Unique xs
      → row g i (remove_at n xs) ≡ (if has_id g i x then none else row g i xs)
  unfolding remove_at row
  row-remove_at g i [] n x f u = absurd f
  row-remove_at g i (z ∷ zs) zero x f u = elim (Bool-cases (has_id g i z)) [
    | inl on ↦ ground (arith, on, f.1, row-Apart g i z zs on u.0)
    | inr off ↦ ground (arith, off, f.1)
  ]
  row-remove_at g i (z ∷ zs) (suc n) x f u = elim (Bool-cases (has_id g i z)) [
    | inr off ↦ ground (arith, off, row-remove_at g i zs n x f.1 u.1)
    | inl on ↦ elim (Bool-cases (has_id g i x)) [
      | inr not_x ↦ ground (arith, on, not_x)
      | inl is_x ↦ absurd (All-Found (Apart z) zs n x f.1 u.0 (has_id-both g i z x on is_x))
    ]
  ]

pub Unique-remove_at : (xs : List Item) (n : ℕ) → Unique xs → Unique (remove_at n xs)
unfolding remove_at
Unique-remove_at [] n u = tt
Unique-remove_at (x ∷ xs) zero u = u.1
Unique-remove_at (x ∷ xs) (suc n) u = (All-remove_at (Apart x) xs n u.0, Unique-remove_at xs n u.1)
