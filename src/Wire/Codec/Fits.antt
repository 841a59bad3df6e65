-- ===== src/Wire/Codec/Fits.antt =====
-- Which values fit the types that they are marshalled by.
use bencchat.Prelude.{
  ℕ, zero, suc, ◌*◌, Bool, true, false, ◌&&◌, not, Option, none, some, [], ◌∷◌, ltb, ◌==◌,
  if◌then◌else◌, length,
}
use bencchat.Prelude.Bytes.{Bytes}
use bencchat.Wire.Codec.{
  sized, counted, Shape, uint, text, slice, array, struct, Shapes, end, field, Value, num, str,
  list, object, Values, nil, cons, count, writable, misplaced, terminated, marshal, marshal_all,
  marshal_fields,
}

-- What a number of `w` bytes can count to.
abbrev pub capacity : ℕ → ℕ
capacity zero = 1
capacity (suc w) = 256 * capacity w

unfoldable pub no_null : Bytes → Bool
no_null [] = true
no_null (c ∷ cs) = not (c == 0) && no_null cs

-- Marshalled, and fewer than `limit` bytes.
unfoldable pub below : ℕ → Option Bytes → Bool
below limit none = false
below limit (some b) = ltb (length b) limit

unfoldable pub filled : Option Bytes → Bool
filled none = false
filled (some b) = ltb 0 (length b)

-- Whether a value is one of the type, fits its prefixes, and shows where it ends.
unfoldable mutual
  unfolding no_null below filled writable misplaced count terminated

  pub fits : Value → Shape → Bool
  fits (num n) (uint w) = ltb n (capacity w)
  fits (str s) (text (sized w) z) =
      ltb (length (terminated z s)) (capacity w) && (if z then no_null s else true)
  fits (list vs) (slice (sized w) s) =
      writable s && (below (capacity w) (marshal_all vs s) && (fill vs s && fit_all vs s))
  fits (list vs) (slice (counted w) s) = writable s && (ltb (count vs) (capacity w) && fit_all vs s)
  fits (list vs) (array n s) = writable s && (count vs == n && fit_all vs s)
  fits (object vs) (struct (sized w) fs) =
      below (capacity w) (marshal_fields vs fs) && fit_fields vs fs
  fits (object vs) (struct p fs) = fit_fields vs fs
  fits v s = false

  pub fit_all : Values → Shape → Bool
  fit_all nil s = true
  fit_all (cons v vs) s = fits v s && fit_all vs s

  -- Each element takes up space.
  pub fill : Values → Shape → Bool
  fill nil s = true
  fill (cons v vs) s = filled (marshal v s) && fill vs s

  pub fit_fields : Values → Shapes → Bool
  fit_fields nil end = true
  fit_fields (cons v vs) (field s fs) = not (misplaced s fs) && (fits v s && fit_fields vs fs)
  fit_fields vs fs = false
