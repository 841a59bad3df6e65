-- ===== src/Wire/Codec/RoundTrip.antt =====
-- What a self-delimiting value is marshalled to reads back, whatever follows it.
use bencchat.Wire.Codec.Fits.{capacity, below, filled, fits, fit_all, fill, fit_fields}
use bencchat.Wire.Codec.Parts.{
  Reads, ReadsFields, ReadsCount, ReadsAll, nil-ReadsCount, nil-ReadsAll, end-ReadsFields,
  cons-ReadsCount, cons-ReadsAll, cons-ReadsFields, all_true, not_true_lem, slice_sized-Reads,
  slice_counted-Reads, array-Reads, struct_sized-Reads, struct_bare-Reads, struct_counted-Reads,
  num-Reads, str-Reads,
}
use bencchat.Prelude.{==_iff, ltb→lt, ◌≡◌, true, not, some, ◌++◌, ltb, ◌==◌, length, arith}
use bencchat.Prelude.Bytes.{Bytes}
use bencchat.Prelude.Outcome.{ok}
use bencchat.Wire.Codec.{
  bare, sized, counted, Shape, uint, text, slice, array, struct, optional, Shapes, end, field,
  Value, num, str, list, object, absent, Values, nil, cons, count, writable, misplaced, terminated,
  marshal, marshal_all, marshal_fields, unmarshal,
}

mutual
  unfolding fits

  value-Reads : (v : Value) (s : Shape) → fits v s ≡ true → Reads v s
  value-Reads (num n) (uint w) h = num-Reads n w (ground arith)
  value-Reads (num n) (text p z) h = cc
  value-Reads (num n) (slice p s) h = cc
  value-Reads (num n) (array k s) h = cc
  value-Reads (num n) (struct p fs) h = cc
  value-Reads (num n) (optional fs) h = cc
  value-Reads (str s) (text bare z) h = cc
  value-Reads (str s) (text (counted w) z) h = cc
  value-Reads (str s) (text (sized w) z) h =
      let (small, clean) = all_true (ltb (length (terminated z s)) (capacity w)) _ h in
      str-Reads s w z (ltb→lt _ _ small) clean
  value-Reads (str s) (uint w) h = cc
  value-Reads (str s) (slice p t) h = cc
  value-Reads (str s) (array k t) h = cc
  value-Reads (str s) (struct p fs) h = cc
  value-Reads (str s) (optional fs) h = cc
  value-Reads (list vs) (slice bare s) h = cc
  value-Reads (list vs) (slice (sized w) s) h =
      let (ws, h1) = all_true (writable s) _ h in
      let (small, h2) = all_true (below (capacity w) (marshal_all vs s)) _ h1 in
      let (f, each) = all_true (fill vs s) (fit_all vs s) h2 in
      slice_sized-Reads vs w s ws small (values-ReadsAll vs s f each)
  value-Reads (list vs) (slice (counted w) s) h =
      let (ws, h1) = all_true (writable s) _ h in
      let (small, each) = all_true (ltb (count vs) (capacity w)) (fit_all vs s) h1 in
      slice_counted-Reads vs w s ws (ltb→lt _ _ small) (values-ReadsCount vs s each)
  value-Reads (list vs) (array n s) h =
      let (ws, h1) = all_true (writable s) _ h in
      let (size, each) = all_true (count vs == n) (fit_all vs s) h1 in
      array-Reads vs n s ws ((==_iff (count vs) n).0 size) (values-ReadsCount vs s each)
  value-Reads (list vs) (uint w) h = cc
  value-Reads (list vs) (text p z) h = cc
  value-Reads (list vs) (struct p fs) h = cc
  value-Reads (list vs) (optional fs) h = cc
  value-Reads (object vs) (struct bare fs) h = struct_bare-Reads vs fs (values-ReadsFields vs fs h)
  value-Reads (object vs) (struct (counted w) fs) h =
      struct_counted-Reads vs w fs (values-ReadsFields vs fs h)
  value-Reads (object vs) (struct (sized w) fs) h =
      let (small, each) =
        all_true (below (capacity w) (marshal_fields vs fs)) (fit_fields vs fs) h in
      struct_sized-Reads vs w fs small (values-ReadsFields vs fs each)
  value-Reads (object vs) (uint w) h = cc
  value-Reads (object vs) (text p z) h = cc
  value-Reads (object vs) (slice p s) h = cc
  value-Reads (object vs) (array k s) h = cc
  value-Reads (object vs) (optional fs) h = cc
  value-Reads absent s h = cc

  values-ReadsCount : (vs : Values) (s : Shape) → fit_all vs s ≡ true → ReadsCount vs s
  values-ReadsCount nil s h = nil-ReadsCount s
  values-ReadsCount (cons v vs) s h =
      let (one, each) = all_true (fits v s) (fit_all vs s) h in
      cons-ReadsCount v vs s (value-Reads v s one) (values-ReadsCount vs s each)

  values-ReadsAll :
      (vs : Values) (s : Shape) → fill vs s ≡ true → fit_all vs s ≡ true → ReadsAll vs s
  values-ReadsAll nil s f h = nil-ReadsAll s
  values-ReadsAll (cons v vs) s f h =
      let (one, each) = all_true (fits v s) (fit_all vs s) h in
      let (space, more) = all_true (filled (marshal v s)) (fill vs s) f in
      cons-ReadsAll v vs s (value-Reads v s one) space (values-ReadsAll vs s more each)

  pub values-ReadsFields : (vs : Values) (fs : Shapes) → fit_fields vs fs ≡ true → ReadsFields vs fs
  values-ReadsFields nil end h = end-ReadsFields
  values-ReadsFields nil (field s fs) h = cc
  values-ReadsFields (cons v vs) end h = cc
  values-ReadsFields (cons v vs) (field s fs) h =
      let (place, h1) = all_true (not (misplaced s fs)) _ h in
      let (one, each) = all_true (fits v s) (fit_fields vs fs) h1 in
      cons-ReadsFields v vs s fs (not_true_lem (misplaced s fs) place) (value-Reads v s one)
        (values-ReadsFields vs fs each)

-- A value that fits its type (numbers within their width, contents and counts within their prefixes,
-- null-terminated strings with no null, every part showing where it ends) is written without an
-- error, and reading gives that value back and leaves whatever follows it.
pub unmarshal-marshal :
    (v : Value) (s : Shape)
    → fits v s ≡ true
    → (b : Bytes) × (marshal v s ≡ some b)
      × ((rest : Bytes) → unmarshal s (b ++ rest) ≡ ok (v, rest))
unmarshal-marshal v s h = value-Reads v s h
