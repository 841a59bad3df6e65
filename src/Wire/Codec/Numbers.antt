-- ===== src/Wire/Codec/Numbers.antt =====
-- Numbers, lengths and terminators read back.
use bencchat.Wire.Codec.Fits.{capacity, no_null}
use bencchat.Prelude.{
  drop-append, take-append, append_assoc, length-append, subst, ℕ, zero, suc, ◌+◌, ◌*◌, ◌/◌, ◌%◌,
  ◌<◌, ◌≡◌, true, [], ◌∷◌, ◌++◌, length, arith, refl,
}
use bencchat.Prelude.Bytes.{Bytes}
use bencchat.Prelude.Outcome.{ok}
use bencchat.Wire.Codec.{
  put, number_from, terminated, read_full, read_uint, read_sized, before_null,
}

pub length-put : (w n : ℕ) → length (put w n) ≡ w
unfolding put
length-put zero n = refl
length-put (suc w) n =
    omega (arith, length-append (put w (n / 256)) ((n % 256) ∷ []), length-put w (n / 256))

pub number_from-append :
    (acc : ℕ) (xs ys : Bytes) → number_from acc (xs ++ ys) ≡ number_from (number_from acc xs) ys
unfolding number_from
number_from-append acc [] ys = refl
number_from-append acc (x ∷ xs) ys = number_from-append (acc * 256 + x) xs ys

pub number_from-put : (w n : ℕ) → n < capacity w → number_from 0 (put w n) ≡ n
unfolding put number_from
number_from-put zero n h = omega arith
number_from-put (suc w) n h =
    rw
      (
        number_from-append 0 (put w (n / 256)) ((n % 256) ∷ []),
        number_from-put w (n / 256) (omega arith),
      )
      (omega arith)

pub read_full-append : (xs ys : Bytes) → read_full (length xs) (xs ++ ys) ≡ ok (xs, ys)
unfolding read_full
read_full-append [] ys = refl
read_full-append (x ∷ xs) ys =
    ground (arith, length-append xs ys, take-append xs ys, drop-append xs ys)

pub read_uint-put :
    (w n : ℕ) (rest : Bytes) → n < capacity w → read_uint w (put w n ++ rest) ≡ ok (n, rest)
unfolding read_uint
read_uint-put w n rest h =
    let full : read_full w (put w n ++ rest) ≡ ok (put w n, rest) =
      subst (λ k. read_full k (put w n ++ rest) ≡ ok (put w n, rest)) (length-put w n)
        (read_full-append (put w n) rest) in
    rw (full, read_uint) (rw (number_from-put w n h) refl)

pub read_sized-put :
    (w : ℕ) (b rest : Bytes)
    → length b < capacity w
    → read_sized w ((put w (length b) ++ b) ++ rest) ≡ ok (b, rest)
unfolding read_sized
read_sized-put w b rest h =
    rw (append_assoc (put w (length b)) b rest)
      (rw (read_uint-put w (length b) (b ++ rest) h, read_sized) (read_full-append b rest))

pub before_null-terminated : (s : Bytes) → no_null s ≡ true → before_null (terminated true s) ≡ s
unfolding no_null before_null terminated
before_null-terminated [] h = refl
before_null-terminated (c ∷ []) h = ground arith
before_null-terminated (c ∷ d ∷ s) h = ground (arith, before_null-terminated (d ∷ s))
