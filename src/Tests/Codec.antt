-- ===== src/Tests/Codec.antt =====
-- The wire codec at concrete inputs.
use bencchat.Prelude.{◌≡◌, ◌≢◌, refl, arith, false, [], ◌∷◌, ◌++◌, some}
use bencchat.Prelude.Bytes.{Bytes}
use bencchat.Prelude.Outcome.{ok}
use bencchat.Text.Ascii.{bytes}
use bencchat.Wire.Codec.{
  Shape, Value, uint, text, slice, struct, sized, counted, end, field, num, str, list, object, nil,
  cons, put, marshal, marshal_all, marshal_fields, unmarshal,
}
use bencchat.Wire.Codec.Fits.{fits}
use bencchat.Wire.Codec.RoundTrip.{unmarshal-marshal}
use bencchat.Wire.Codec.Overflow.{marshal-overflow}
use bencchat.Wire.Manifest.{Manifest, manifest_value, encode_manifest, decode_manifest}
use bencchat.Wire.Manifest.RoundTrip.{decode_manifest-encode_manifest}
use bencchat.Tests.Toy.{fill}

-- A name and a counted list of numbers.
abbrev row_shape : Shape
row_shape = struct (sized 2) (field (text (sized 1) false) (field (slice (counted 2) (uint 2)) end))

abbrev row : Value
row = object (cons (str (bytes "bob")) (cons (list (cons (num 300) (cons (num 7) nil))) nil))

unmarshal-marshal_example :
    (b : Bytes) × (marshal row row_shape ≡ some b)
    × ((rest : Bytes) → unmarshal row_shape (b ++ rest) ≡ ok (row, rest))
unfolding marshal_fields put
unmarshal-marshal_example = unmarshal-marshal row row_shape (unfold fits in refl)

marshal-overflow_example :
    (marshal (str (fill 256 65)) (text (sized 1) false) ≡ some (put 1 256 ++ fill 256 65))
    × ((left : Bytes)
        → unmarshal (text (sized 1) false) ((put 1 256 ++ fill 256 65) ++ [])
          ≢ ok (str (fill 256 65), left))
marshal-overflow_example = marshal-overflow 1 (fill 256 65) [] (omega arith)

abbrev manifest : Manifest
manifest = record {
  version = 2;
  screen_name = bytes "bob";
  counter = 3;
  issued_at = 1700000000;
  identity = record { alg = 2; key = fill 32 7 };
  devices =
      record {
        box = record { alg = 1; key = fill 32 9 };
        sign = record { alg = 0; key = [] };
        label = bytes "desk";
      }
      ∷ [];
}

decode_manifest-encode_manifest_example :
    (b : Bytes) × (encode_manifest manifest ≡ some b)
    × ((rest : Bytes) → decode_manifest (b ++ rest) ≡ some manifest)
unfolding marshal_all put
decode_manifest-encode_manifest_example =
    decode_manifest-encode_manifest manifest (unfold fits manifest_value in refl)
