-- ===== src/Wire/Codec/Final.antt =====
-- Whole messages: structs whose last field runs to the end of the message, as a list without a prefix
-- or as an optional struct.
use bencchat.Prelude.{
  ◌∙◌, sym, append-nil, subst, ℕ, zero, suc, ◌<◌, ◌≡◌, Bool, true, false, ◌&&◌, not, Option, some,
  [], ◌++◌, length, arith, refl, length-append,
}
use bencchat.Wire.Codec.Parts.{not_true_lem, marshal_all-cons, all_true, Reads}
use bencchat.Wire.Codec.RoundTrip.{values-ReadsFields, unmarshal-marshal}
use bencchat.Wire.Codec.Fits.{fits, fit_all, fill, fit_fields, filled}
use bencchat.Prelude.Bytes.{Bytes}
use bencchat.Prelude.Outcome.{Result, ok, err}
use bencchat.Wire.Codec.{
  bare, Shape, slice, struct, optional, Shapes, end, field, Value, list, object, absent, Values,
  nil, cons, CodecError, eof, writable, misplaced, marshal, marshal_all, marshal_fields, read_until,
  unmarshal, unmarshal_fields,
}

-- Reading finds nothing left.
unfoldable pub nothing_left {ℓ} : {A : Type ℓ} → Result CodecError A → Bool
nothing_left (err eof) = true
nothing_left r = false

unfoldable pub fits_final : Value → Shape → Bool
unfolding nothing_left
fits_final (list vs) (slice bare s) =
    writable s && (nothing_left (unmarshal s []) && (fill vs s && fit_all vs s))
fits_final absent (optional fs) = nothing_left (unmarshal_fields fs [])
fits_final (object vs) (optional fs) = fit_fields vs fs
fits_final v s = fits v s

unfoldable pub final_fields : Values → Shapes → Bool
unfolding fits_final
final_fields nil end = true
final_fields (cons v nil) (field s end) = fits_final v s
final_fields (cons v vs) (field s (field t fs)) =
    not (misplaced s (field t fs)) && (fits v s && final_fields vs (field t fs))
final_fields vs fs = false

nothing_left_lem {ℓ} : {A : Type ℓ} (r : Result CodecError A) → nothing_left r ≡ true → r ≡ err eof
unfolding nothing_left
nothing_left_lem r h = ground arith

-- The whole text of a value, and nothing behind it.
abbrev pub ReadsWhole : Value → Shape → Type 0
ReadsWhole v s = (b : Bytes) × (marshal v s ≡ some b) × (unmarshal s b ≡ ok (v, []))

read_until-cons :
    (v : Value) (vs : Values) (s : Shape) (b bs : Bytes)
    → ((rest : Bytes) → unmarshal s (b ++ rest) ≡ ok (v, rest))
    → 0 < length b
    → ((fuel : ℕ) → length bs < fuel → read_until fuel (unmarshal s) bs ≡ ok vs)
    → (fuel : ℕ) → length (b ++ bs) < fuel
    → read_until fuel (unmarshal s) (b ++ bs) ≡ ok (cons v vs)
unfolding read_until
read_until-cons v vs s b bs r long rs zero h = absurd (omega arith)
read_until-cons v vs s b bs r long rs (suc fuel) h =
    ground (arith, r bs, rs fuel (omega (arith, length-append b bs)))

abbrev ReadsUntil : Values → Shape → Type 0
ReadsUntil vs s =
    (b : Bytes) × (marshal_all vs s ≡ some b)
    × ((fuel : ℕ) → length b < fuel → read_until fuel (unmarshal s) b ≡ ok vs)

length-filled : (b : Bytes) (o : Option Bytes) → o ≡ some b → filled o ≡ true → 0 < length b
unfolding filled
length-filled b o e h = ground (arith, e, h)

read_until-nil :
    (s : Shape)
    → unmarshal s [] ≡ err eof
    → (fuel : ℕ) → 0 < fuel
    → read_until fuel (unmarshal s) [] ≡ ok nil
unfolding read_until
read_until-nil s e zero h = absurd (omega arith)
read_until-nil s e (suc fuel) h = ground (arith, e)

values-ReadsUntil :
    (vs : Values) (s : Shape)
    → nothing_left (unmarshal s []) ≡ true
    → fill vs s ≡ true
    → fit_all vs s ≡ true
    → ReadsUntil vs s
unfolding fill fit_all
values-ReadsUntil nil s last f h =
    ([], unfold marshal in refl, read_until-nil s (nothing_left_lem (unmarshal s []) last))
values-ReadsUntil (cons v vs) s last f h =
    let (one, each) = all_true (fits v s) (fit_all vs s) h in
    let (space, more) = all_true (filled (marshal v s)) (fill vs s) f in
    let (b, m, r) = unmarshal-marshal v s one in
    let (bs, ms, rs) = values-ReadsUntil vs s last more each in
    (
      b ++ bs,
      marshal_all-cons v vs s b bs m ms,
      read_until-cons v vs s b bs r (length-filled b (marshal v s) m space) rs,
    )

slice-ReadsWhole :
    (vs : Values) (s : Shape)
    → writable s ≡ true
    → ReadsUntil vs s
    → ReadsWhole (list vs) (slice bare s)
unfolding marshal unmarshal
slice-ReadsWhole vs s ws (b, m, r) =
    (b, ground (arith, ws, m), ground (arith, r (suc (length b)) (omega arith)))

absent-ReadsWhole :
    (fs : Shapes) → unmarshal_fields fs [] ≡ err eof → ReadsWhole absent (optional fs)
unfolding marshal unmarshal
absent-ReadsWhole fs e = ([], refl, ground (arith, e))

optional-ReadsWhole :
    (vs : Values) (fs : Shapes) → fit_fields vs fs ≡ true → ReadsWhole (object vs) (optional fs)
unfolding marshal unmarshal
optional-ReadsWhole vs fs h =
    let (b, m, r) = values-ReadsFields vs fs h in
    let all : unmarshal_fields fs b ≡ ok (vs, []) =
      subst (λ z. unmarshal_fields fs z ≡ ok (vs, [])) (append-nil b) (r []) in
    (b, m, ground (arith, all))

fits-ReadsWhole : (v : Value) (s : Shape) → fits v s ≡ true → ReadsWhole v s
fits-ReadsWhole v s h =
    let (b, m, r) = unmarshal-marshal v s h in
    (b, m, subst (λ z. unmarshal s z ≡ ok (v, [])) (append-nil b) (r []))

final-ReadsWhole : (v : Value) (s : Shape) → fits_final v s ≡ true → ReadsWhole v s
unfolding fits_final
final-ReadsWhole (list vs) (slice bare s) h =
    let (ws, h1) = all_true (writable s) _ h in
    let (last, h2) = all_true (nothing_left (unmarshal s [])) _ h1 in
    let (space, each) = all_true (fill vs s) (fit_all vs s) h2 in
    slice-ReadsWhole vs s ws (values-ReadsUntil vs s last space each)
final-ReadsWhole absent (optional fs) h =
    absent-ReadsWhole fs (nothing_left_lem (unmarshal_fields fs []) h)
final-ReadsWhole (object vs) (optional fs) h = optional-ReadsWhole vs fs h
final-ReadsWhole v s h = fits-ReadsWhole v s h

abbrev FieldsWhole : Values → Shapes → Type 0
FieldsWhole vs fs =
    (b : Bytes) × (marshal_fields vs fs ≡ some b) × (unmarshal_fields fs b ≡ ok (vs, []))

misplaced_end : (s : Shape) → misplaced s end ≡ false
unfolding misplaced
misplaced_end (optional fs) = refl
misplaced_end s = refl

last-FieldsWhole : (v : Value) (s : Shape) → ReadsWhole v s → FieldsWhole (cons v nil) (field s end)
unfolding marshal unmarshal
last-FieldsWhole v s (b, m, r) = (
  b ++ [],
  ground (arith, m, misplaced_end s),
  rw (append-nil b) (ground (arith, r, misplaced_end s)),
)

cons-FieldsWhole :
    (v : Value) (vs : Values) (s : Shape) (fs : Shapes)
    → misplaced s fs ≡ false
    → Reads v s
    → FieldsWhole vs fs
    → FieldsWhole (cons v vs) (field s fs)
unfolding marshal unmarshal
cons-FieldsWhole v vs s fs p (b, m, r) (bs, ms, rs) =
    (b ++ bs, ground (arith, m, ms, p), ground (arith, p, r bs, rs))

final_fields-cons :
    (v : Value) (vs : Values) (s t : Shape) (fs : Shapes)
    → final_fields (cons v vs) (field s (field t fs))
      ≡ (not (misplaced s (field t fs)) && (fits v s && final_fields vs (field t fs)))
unfolding final_fields
final_fields-cons v nil s t fs = refl
final_fields-cons v (cons w vs) s t fs = refl

final_fields-FieldsWhole :
    (vs : Values) (fs : Shapes) → final_fields vs fs ≡ true → FieldsWhole vs fs
unfolding final_fields
final_fields-FieldsWhole nil end h = ([], unfold marshal in refl, unfold unmarshal in refl)
final_fields-FieldsWhole nil (field s fs) h = cc
final_fields-FieldsWhole (cons v nil) end h = cc
final_fields-FieldsWhole (cons v (cons w vs)) end h = cc
final_fields-FieldsWhole (cons v nil) (field s end) h =
    last-FieldsWhole v s (final-ReadsWhole v s h)
final_fields-FieldsWhole (cons v (cons w vs)) (field s end) h = cc
final_fields-FieldsWhole (cons v vs) (field s (field t fs)) h =
    let (place, h1) =
      all_true (not (misplaced s (field t fs))) _ (sym (final_fields-cons v vs s t fs) ∙ h) in
    let (one, more) = all_true (fits v s) (final_fields vs (field t fs)) h1 in
    cons-FieldsWhole v vs s (field t fs) (not_true_lem (misplaced s (field t fs)) place)
      (unmarshal-marshal v s one) (final_fields-FieldsWhole vs (field t fs) more)

-- A message whose fields fit, where the last one may run to the end (a list of filled elements with no
-- prefix, an optional struct, or no struct where reading one would find nothing left), is written
-- without an error, and reading the text gives the message back.
pub unmarshal-marshal_message :
    (vs : Values) (fs : Shapes)
    → final_fields vs fs ≡ true
    → (b : Bytes) × (marshal (object vs) (struct bare fs) ≡ some b)
      × (unmarshal (struct bare fs) b ≡ ok (object vs, []))
unfolding marshal unmarshal
unmarshal-marshal_message vs fs h =
    let (b, m, r) = final_fields-FieldsWhole vs fs h in (b, ground (arith, m), ground (arith, r))
