-- ===== src/Wire/Codec/Parts.antt =====
-- What each kind of value is marshalled to reads back, where its parts do.
use bencchat.Wire.Codec.Fits.{capacity, no_null, below, filled}
use bencchat.Wire.Codec.Numbers.{read_uint-put, read_sized-put, before_null-terminated}
use bencchat.Prelude.{
  append-nil, append_assoc, length-append, subst, ◌≤◌, ℕ, zero, suc, ◌<◌, ◌≡◌, Bool, true, false,
  ◌&&◌, not, Option, some, [], ◌∷◌, ◌++◌, if◌then◌else◌, length, arith, refl,
}
use bencchat.Prelude.Bytes.{Bytes}
use bencchat.Prelude.Outcome.{ok}
use bencchat.Wire.Codec.{
  bare, sized, counted, Shape, uint, text, slice, array, struct, Shapes, end, field, Value, num,
  str, list, object, Values, nil, cons, put, count, writable, misplaced, terminated, marshal,
  marshal_all, marshal_fields, read_count, read_all, unmarshal, unmarshal_fields,
}

-- A value is written, and reading gives it back with whatever follows.
abbrev pub Reads : Value → Shape → Type 0
Reads v s =
    (b : Bytes) × (marshal v s ≡ some b) × ((rest : Bytes) → unmarshal s (b ++ rest) ≡ ok (v, rest))

abbrev pub ReadsFields : Values → Shapes → Type 0
ReadsFields vs fs =
    (b : Bytes) × (marshal_fields vs fs ≡ some b)
    × ((rest : Bytes) → unmarshal_fields fs (b ++ rest) ≡ ok (vs, rest))

abbrev pub ReadsCount : Values → Shape → Type 0
ReadsCount vs s =
    (b : Bytes) × (marshal_all vs s ≡ some b)
    × ((rest : Bytes) → read_count (count vs) (unmarshal s) (b ++ rest) ≡ ok (vs, rest))

abbrev pub ReadsAll : Values → Shape → Type 0
ReadsAll vs s =
    (b : Bytes) × (marshal_all vs s ≡ some b)
    × ((fuel : ℕ) → length b ≤ fuel → read_all fuel (unmarshal s) b ≡ ok vs)

pub marshal_all-cons :
    (v : Value) (vs : Values) (s : Shape) (b bs : Bytes)
    → marshal v s ≡ some b
    → marshal_all vs s ≡ some bs
    → marshal_all (cons v vs) s ≡ some (b ++ bs)
unfolding marshal
marshal_all-cons v vs s b bs m ms = ground (arith, m, ms)

pub nil-ReadsCount : (s : Shape) → ReadsCount nil s
unfolding marshal count read_count
nil-ReadsCount s = ([], refl, λ rest. refl)

pub nil-ReadsAll : (s : Shape) → ReadsAll nil s
unfolding marshal read_all
nil-ReadsAll s = ([], refl, λ fuel h. ground arith)

pub end-ReadsFields : ReadsFields nil end
unfolding marshal unmarshal
end-ReadsFields = ([], refl, λ rest. refl)

pub cons-ReadsCount :
    (v : Value) (vs : Values) (s : Shape) → Reads v s → ReadsCount vs s → ReadsCount (cons v vs) s
unfolding read_count count
cons-ReadsCount v vs s (b, m, r) (bs, ms, rs) = (
  b ++ bs,
  marshal_all-cons v vs s b bs m ms,
  λ rest.
      rw (append_assoc b bs rest) (rw (r (bs ++ rest), read_count) (rw (rs rest, read_count) refl)),
)

pub read_all-cons :
    (v : Value) (vs : Values) (s : Shape) (c : ℕ) (b bs : Bytes)
    → ((rest : Bytes) → unmarshal s ((c ∷ b) ++ rest) ≡ ok (v, rest))
    → ((fuel : ℕ) → length bs ≤ fuel → read_all fuel (unmarshal s) bs ≡ ok vs)
    → (fuel : ℕ) → length ((c ∷ b) ++ bs) ≤ fuel
    → read_all fuel (unmarshal s) ((c ∷ b) ++ bs) ≡ ok (cons v vs)
unfolding read_all
read_all-cons v vs s c b bs r rs zero h = absurd (omega arith)
read_all-cons v vs s c b bs r rs (suc fuel) h =
    rw (r bs, read_all) (rw (rs fuel (omega (arith, length-append b bs)), read_all) refl)

pub cons-ReadsAll :
    (v : Value) (vs : Values) (s : Shape)
    → Reads v s
    → filled (marshal v s) ≡ true
    → ReadsAll vs s
    → ReadsAll (cons v vs) s
unfolding filled
cons-ReadsAll v vs s ([], m, r) f (bs, ms, rs) = absurd (ground (arith, m, f))
cons-ReadsAll v vs s ((c ∷ b), m, r) f (bs, ms, rs) =
    ((c ∷ b) ++ bs, marshal_all-cons v vs s (c ∷ b) bs m ms, read_all-cons v vs s c b bs r rs)

pub cons-ReadsFields :
    (v : Value) (vs : Values) (s : Shape) (fs : Shapes)
    → misplaced s fs ≡ false
    → Reads v s
    → ReadsFields vs fs
    → ReadsFields (cons v vs) (field s fs)
unfolding marshal unmarshal
cons-ReadsFields v vs s fs p (b, m, r) (bs, ms, rs) = (
  b ++ bs,
  ground (arith, m, ms, p),
  λ rest.
      rw (append_assoc b bs rest)
        (rw p (rw (r (bs ++ rest), unmarshal_fields) (rw (rs rest, unmarshal_fields) refl))),
)

pub all_true : (a b : Bool) → (a && b) ≡ true → (a ≡ true) × (b ≡ true)
all_true a b h = (ground arith, ground arith)

pub not_true_lem : (b : Bool) → not b ≡ true → b ≡ false
not_true_lem b h = ground arith

pub below_lt : (k : ℕ) (o : Option Bytes) (b : Bytes) → o ≡ some b → below k o ≡ true → length b < k
unfolding below
below_lt k o b e h = ground (arith, e, h)

pub slice_sized-Reads :
    (vs : Values) (w : ℕ) (s : Shape)
    → writable s ≡ true
    → below (capacity w) (marshal_all vs s) ≡ true
    → ReadsAll vs s
    → Reads (list vs) (slice (sized w) s)
unfolding marshal unmarshal
slice_sized-Reads vs w s ws small (b, m, r) = (
  put w (length b) ++ b,
  ground (arith, ws, m),
  λ rest. ground (
    arith,
    read_sized-put w b rest (below_lt (capacity w) (marshal_all vs s) b m small),
    r (length b) (omega arith),
  ),
)

pub slice_counted-Reads :
    (vs : Values) (w : ℕ) (s : Shape)
    → writable s ≡ true
    → count vs < capacity w
    → ReadsCount vs s
    → Reads (list vs) (slice (counted w) s)
unfolding marshal unmarshal
slice_counted-Reads vs w s ws small (b, m, r) = (
  put w (count vs) ++ b,
  ground (arith, ws, m),
  λ rest.
      rw (append_assoc (put w (count vs)) b rest)
        (ground (arith, read_uint-put w (count vs) (b ++ rest) small, r rest)),
)

pub array-Reads :
    (vs : Values) (n : ℕ) (s : Shape)
    → writable s ≡ true
    → count vs ≡ n
    → ReadsCount vs s
    → Reads (list vs) (array n s)
unfolding marshal unmarshal
array-Reads vs n s ws size (b, m, r) =
    subst (λ k. Reads (list vs) (array k s)) size
      (b, ground (arith, ws, m), λ rest. ground (arith, r rest))

pub struct_sized-Reads :
    (vs : Values) (w : ℕ) (fs : Shapes)
    → below (capacity w) (marshal_fields vs fs) ≡ true
    → ReadsFields vs fs
    → Reads (object vs) (struct (sized w) fs)
unfolding marshal unmarshal
struct_sized-Reads vs w fs small (b, m, r) =
    let all : unmarshal_fields fs b ≡ ok (vs, []) =
      subst (λ z. unmarshal_fields fs z ≡ ok (vs, [])) (append-nil b) (r []) in
    (
      put w (length b) ++ b,
      ground (arith, m),
      λ rest. ground (
        arith,
        all,
        read_sized-put w b rest (below_lt (capacity w) (marshal_fields vs fs) b m small),
      ),
    )

pub struct_bare-Reads :
    (vs : Values) (fs : Shapes) → ReadsFields vs fs → Reads (object vs) (struct bare fs)
unfolding marshal unmarshal
struct_bare-Reads vs fs (b, m, r) = (b, ground (arith, m), λ rest. ground (arith, r rest))

pub struct_counted-Reads :
    (vs : Values) (w : ℕ) (fs : Shapes)
    → ReadsFields vs fs
    → Reads (object vs) (struct (counted w) fs)
unfolding marshal unmarshal
struct_counted-Reads vs w fs (b, m, r) = (b, ground (arith, m), λ rest. ground (arith, r rest))

pub num-Reads : (n w : ℕ) → n < capacity w → Reads (num n) (uint w)
unfolding marshal unmarshal
num-Reads n w h = (put w n, refl, λ rest. ground (arith, read_uint-put w n rest h))

pub str-Reads :
    (s : Bytes) (w : ℕ) (z : Bool)
    → length (terminated z s) < capacity w
    → (if z then no_null s else true) ≡ true
    → Reads (str s) (text (sized w) z)
unfolding marshal unmarshal
str-Reads s w true h clean = (
  put w (length (terminated true s)) ++ terminated true s,
  refl,
  λ rest.
      ground (arith, read_sized-put w (terminated true s) rest h, before_null-terminated s clean),
)
str-Reads s w false h clean =
    (put w (length s) ++ s, refl, λ rest. ground (arith, read_sized-put w s rest h))
