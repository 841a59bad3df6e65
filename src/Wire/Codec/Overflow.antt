-- ===== src/Wire/Codec/Overflow.antt =====
-- marshalUnsignedInt writes a length that its prefix cannot hold all the same, cut to the prefix.
use bencchat.Prelude.{
  ap, inr, inl, append_assoc, subst, length-take, ℕ, zero, suc, ◌/◌, ◌%◌, ◌<◌, ◌≤◌, ◌≡◌, ◌≢◌, false,
  [], ◌∷◌, ◌++◌, some, length, arith, refl,
}
use bencchat.Wire.Codec.Numbers.{read_full-append, length-put, number_from-append}
use bencchat.Wire.Codec.Fits.{capacity}
use bencchat.Prelude.Outcome.{Result-cases, ok}
use bencchat.Prelude.Bytes.{Bytes}
use bencchat.Wire.Codec.{
  sized, text, str, put, number_from, read_full, read_uint, read_sized, marshal, unmarshal,
}

number_from-put_lt : (w n : ℕ) → number_from 0 (put w n) < capacity w
unfolding put number_from
number_from-put_lt zero n = omega arith
number_from-put_lt (suc w) n =
    rw (number_from-append 0 (put w (n / 256)) ((n % 256) ∷ []))
      (omega (arith, number_from-put_lt w (n / 256)))

length-read_full : (n : ℕ) (bs s rest : Bytes) → read_full n bs ≡ ok (s, rest) → length s ≡ n
unfolding read_full
length-read_full zero bs s rest e = ground arith
length-read_full (suc n) [] s rest e = ground arith
length-read_full (suc n) (b ∷ bs) s rest e = ground (arith, length-take n bs)

read_sized-put_any :
    (w n : ℕ) (body : Bytes)
    → read_sized w (put w n ++ body) ≡ read_full (number_from 0 (put w n)) body
unfolding read_sized read_uint
read_sized-put_any w n body =
    let full : read_full w (put w n ++ body) ≡ ok (put w n, body) =
      subst (λ k. read_full k (put w n ++ body) ≡ ok (put w n, body)) (length-put w n)
        (read_full-append (put w n) body) in
    ground (arith, full)

-- A string (not null-terminated) that is too long for its prefix is written without an error, and
-- what is written does not read back as that string, whatever follows it.
pub marshal-overflow :
    (w : ℕ) (s rest : Bytes)
    → capacity w ≤ length s
    → (marshal (str s) (text (sized w) false) ≡ some (put w (length s) ++ s))
      × ((left : Bytes)
          → unmarshal (text (sized w) false) ((put w (length s) ++ s) ++ rest) ≢ ok (str s, left))
unfolding marshal unmarshal
marshal-overflow w s rest h = (
  refl,
  λ left e.
      let k = number_from 0 (put w (length s)) in
      let sized_text : read_sized w ((put w (length s) ++ s) ++ rest) ≡ read_full k (s ++ rest) =
        rw (append_assoc (put w (length s)) s rest) (read_sized-put_any w (length s) (s ++ rest)) in
      elim (Result-cases (read_full k (s ++ rest))) [
        | inl (why, failed) ↦ ground (arith, e, sized_text, failed)
        | inr ((t, more), read) ↦
            let same : t ≡ s = ground (arith, e, sized_text, read) in
            absurd (
              omega (
                arith,
                length-read_full k (s ++ rest) t more read,
                ap length same,
                number_from-put_lt w (length s),
              ))
      ],
)
