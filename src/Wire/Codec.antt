-- ===== src/Wire/Codec.antt =====
-- internal/wire/codec.go: marshalling in big-endian order. What reflection reads off a type and its
-- `oscar` tags is a `Shape`; a value of such a type is a `Value`.
pub mod Fits
pub mod Numbers
pub mod Parts
pub mod RoundTrip
pub mod Final
pub mod Overflow
use mathlib.Core.Option
use bencchat.Prelude.{
  ℕ, zero, suc, ◌+◌, ◌*◌, ◌/◌, ◌%◌, Bool, true, false, ◌&&◌, not, Option, none, some, List, [], ◌∷◌,
  ◌++◌, ltb, ◌==◌, if◌then◌else◌, length, take, drop,
}
use bencchat.Prelude.Bytes.{Bytes}
use bencchat.Prelude.Outcome.{Result, ok, err, ◌>>=◌}

-- The prefix that a tag asks for, with its width in bytes: of the content's length, or of the number
-- of elements.
pub data Prefix : Type 0 where
  bare : Prefix
  sized : ℕ → Prefix
  counted : ℕ → Prefix

-- A type with its tag. `optional` is a pointer to a struct.
mutual
  pub data Shape : Type 0 where
    uint : ℕ → Shape
    text : Prefix → Bool → Shape
    slice : Prefix → Shape → Shape
    array : ℕ → Shape → Shape
    struct : Prefix → Shapes → Shape
    optional : Shapes → Shape

  pub data Shapes : Type 0 where
    end : Shapes
    field : Shape → Shapes → Shapes

mutual
  pub data Value : Type 0 where
    num : ℕ → Value
    str : Bytes → Value
    list : Values → Value
    object : Values → Value
    absent : Value

  pub data Values : Type 0 where
    nil : Values
    cons : Value → Values → Values

-- `io.EOF` where nothing was left to read, `io.ErrUnexpectedEOF` where too little was.
pub data CodecError : Type 0 where
  eof unexpected_eof unsupported endless : CodecError

-- `binary.Write` of an unsigned integer of `w` bytes: what does not fit is cut off.
unfoldable pub put : ℕ → ℕ → Bytes
put zero n = []
put (suc w) n = put w (n / 256) ++ (n % 256) ∷ []

unfoldable pub number_from : ℕ → Bytes → ℕ
number_from acc [] = acc
number_from acc (b ∷ bs) = number_from (acc * 256 + b) bs

unfoldable pub count : Values → ℕ
count nil = 0
count (cons v vs) = suc (count vs)

-- What `binary.Write` and marshalStruct write of an element.
unfoldable pub writable : Shape → Bool
writable (uint w) = true
writable (struct bare fs) = true
writable s = false

unfoldable pub misplaced : Shape → Shapes → Bool
misplaced (optional fs) (field s more) = true
misplaced s more = false

unfoldable pub prefixed : Prefix → ℕ → Bytes → Bytes
prefixed bare n b = b
prefixed (sized w) n b = put w (length b) ++ b
prefixed (counted w) n b = put w n ++ b

-- Strings and structs have no prefix but their length's.
unfoldable pub length_prefixed : Prefix → Bytes → Bytes
length_prefixed (sized w) b = put w (length b) ++ b
length_prefixed p b = b

unfoldable pub terminated : Bool → Bytes → Bytes
terminated true (c ∷ s) = (c ∷ s) ++ 0 ∷ []
terminated z s = s

unfoldable mutual
  unfolding writable misplaced count prefixed length_prefixed terminated

  pub marshal : Value → Shape → Option Bytes
  marshal (num n) (uint w) = some (put w n)
  marshal (str s) (text p z) = some (length_prefixed p (terminated z s))
  marshal (list vs) (slice p s) =
      if writable s then Option.map (prefixed p (count vs)) (marshal_all vs s) else none
  marshal (list vs) (array n s) = if writable s && count vs == n then marshal_all vs s else none
  marshal (object vs) (struct p fs) = Option.map (length_prefixed p) (marshal_fields vs fs)
  marshal (object vs) (optional fs) = marshal_fields vs fs
  marshal absent (optional fs) = some []
  marshal v s = none

  pub marshal_all : Values → Shape → Option Bytes
  marshal_all nil s = some []
  marshal_all (cons v vs) s = elim (marshal v s) [
    | none ↦ none
    | some b ↦ Option.map (λ bs. b ++ bs) (marshal_all vs s)
  ]

  pub marshal_fields : Values → Shapes → Option Bytes
  marshal_fields nil end = some []
  marshal_fields (cons v vs) (field s fs) =
      let rest = marshal_fields vs fs in
      if misplaced s fs
      then none
      else elim (marshal v s) [ none ↦ none | some b ↦ Option.map (λ bs. b ++ bs) rest ]
  marshal_fields vs fs = none

-- `io.ReadFull`, and `binary.Read` of so many bytes.
unfoldable pub read_full : ℕ → Bytes → Result CodecError (Bytes × Bytes)
read_full zero bs = ok ([], bs)
read_full (suc n) [] = err eof
read_full (suc n) (b ∷ bs) =
    if ltb (length bs) n then err unexpected_eof else ok (b ∷ take n bs, drop n bs)

unfoldable pub read_uint : ℕ → Bytes → Result CodecError (ℕ × Bytes)
unfolding read_full number_from
read_uint w bs = elim (read_full w bs) [
  | err e ↦ err e
  | ok (digits, rest) ↦ ok (number_from 0 digits, rest)
]

-- The bytes behind a length.
unfoldable pub read_sized : ℕ → Bytes → Result CodecError (Bytes × Bytes)
unfolding read_uint
read_sized w bs = elim (read_uint w bs) [ err e ↦ err e | ok (n, rest) ↦ read_full n rest ]

-- The loops of unmarshalSlice over a reader of one element.
abbrev pub Reader : Type 0
Reader = Bytes → Result CodecError (Value × Bytes)

unfoldable pub read_count : ℕ → Reader → Bytes → Result CodecError (Values × Bytes)
read_count zero read bs = ok (nil, bs)
read_count (suc n) read bs = elim (read bs) [
  | err e ↦ err e
  | ok (v, rest) ↦ elim (read_count n read rest) [
    | err e ↦ err e
    | ok (vs, left) ↦ ok (cons v vs, left)
  ]
]

-- Until nothing is left, on fuel.
unfoldable pub read_all : ℕ → Reader → Bytes → Result CodecError Values
read_all fuel read [] = ok nil
read_all zero read (b ∷ bs) = err endless
read_all (suc fuel) read (b ∷ bs) = elim (read (b ∷ bs)) [
  | err e ↦ err e
  | ok (v, rest) ↦ elim (read_all fuel read rest) [ err e ↦ err e | ok vs ↦ ok (cons v vs) ]
]

-- Until the reader says that nothing was left.
unfoldable pub read_until : ℕ → Reader → Bytes → Result CodecError Values
read_until zero read bs = err endless
read_until (suc fuel) read bs = elim (read bs) [
  | err eof ↦ ok nil
  | err e ↦ err e
  | ok (v, rest) ↦ elim (read_until fuel read rest) [ err e ↦ err e | ok vs ↦ ok (cons v vs) ]
]

unfoldable pub before_null : Bytes → Bytes
before_null [] = []
before_null (c ∷ cs) = let rest = before_null cs in if c == 0 then [] else c ∷ rest

unfoldable mutual
  unfolding read_full read_uint read_sized read_count read_all read_until before_null misplaced

  pub unmarshal : Shape → Bytes → Result CodecError (Value × Bytes)
  unmarshal (uint w) bs = elim (read_uint w bs) [ err e ↦ err e | ok (n, rest) ↦ ok (num n, rest) ]
  unmarshal (text (sized w) z) bs = elim (read_sized w bs) [
    | err e ↦ err e
    | ok (s, rest) ↦ ok (str (if z then before_null s else s), rest)
  ]
  unmarshal (text p z) bs = err unsupported
  unmarshal (slice (sized w) s) bs = elim (read_sized w bs) [
    | err e ↦ err e
    | ok (body, rest) ↦ elim (read_all (length body) (unmarshal s) body) [
      | err e ↦ err e
      | ok vs ↦ ok (list vs, rest)
    ]
  ]
  unmarshal (slice (counted w) s) bs = elim (read_uint w bs) [
    | err e ↦ err e
    | ok (n, body) ↦ elim (read_count n (unmarshal s) body) [
      | err e ↦ err e
      | ok (vs, rest) ↦ ok (list vs, rest)
    ]
  ]
  unmarshal (slice bare s) bs = elim (read_until (suc (length bs)) (unmarshal s) bs) [
    | err e ↦ err e
    | ok vs ↦ ok (list vs, [])
  ]
  unmarshal (array n s) bs = elim (read_count n (unmarshal s) bs) [
    | err e ↦ err e
    | ok (vs, rest) ↦ ok (list vs, rest)
  ]
  unmarshal (struct (sized w) fs) bs = elim (read_sized w bs) [
    | err e ↦ err e
    | ok (body, rest) ↦ elim (unmarshal_fields fs body) [
      | err e ↦ err e
      | ok (vs, _) ↦ ok (object vs, rest)
    ]
  ]
  unmarshal (struct p fs) bs = elim (unmarshal_fields fs bs) [
    | err e ↦ err e
    | ok (vs, rest) ↦ ok (object vs, rest)
  ]
  unmarshal (optional fs) bs = elim (unmarshal_fields fs bs) [
    | err eof ↦ ok (absent, [])
    | err e ↦ err e
    | ok (vs, rest) ↦ ok (object vs, rest)
  ]

  pub unmarshal_fields : Shapes → Bytes → Result CodecError (Values × Bytes)
  unmarshal_fields end bs = ok (nil, bs)
  unmarshal_fields (field s fs) bs =
      if misplaced s fs then err unsupported else elim (unmarshal s bs) [
        | err e ↦ err e
        | ok (v, rest) ↦ elim (unmarshal_fields fs rest) [
          | err e ↦ err e
          | ok (vs, left) ↦ ok (cons v vs, left)
        ]
      ]
