-- ===== src/Wire/Manifest.antt =====
-- internal/wire/keydir.go: the signed statement of who an account's devices are.
pub mod RoundTrip
use bencchat.Prelude.{
  ℕ, ◌+◌, Bool, true, false, Option, none, some, List, [], ◌∷◌, ◌++◌, ◌≡◌, refl, arith,
}
use bencchat.Prelude.Bytes.{Bytes}
use bencchat.Prelude.Outcome.{Result, ok, err}
use bencchat.Wire.Codec.{
  bare, sized, counted, Shape, uint, text, slice, struct, Shapes, end, field, Value, num, str, list,
  object, Values, nil, cons, CodecError, unsupported, marshal, unmarshal,
}

pub record Key : Type 0 where
  pub alg : ℕ
  pub key : Bytes

pub record DeviceEntry : Type 0 where
  pub box : Key
  pub sign : Key
  pub label : Bytes

pub record Manifest : Type 0 where
  pub version : ℕ
  pub screen_name : Bytes
  pub counter : ℕ
  pub issued_at : ℕ
  pub identity : Key
  pub devices : List DeviceEntry

-- The structs with their tags.
abbrev pub key_shape : Shape
key_shape = struct bare (field (uint 1) (field (slice (sized 2) (uint 1)) end))

abbrev pub device_shape : Shape
device_shape = struct bare (field key_shape (field key_shape (field (text (sized 1) false) end)))

abbrev pub manifest_shape : Shape
manifest_shape = struct bare (
    field (uint 2) (
      field (text (sized 1) false) (
        field (uint 8)
          (field (uint 8) (field key_shape (field (slice (counted 2) device_shape) end))))))

-- A byte slice is a slice of uint8.
unfoldable pub byte_values : Bytes → Values
byte_values [] = nil
byte_values (b ∷ bs) = cons (num b) (byte_values bs)

unfoldable pub key_value : Key → Value
unfolding byte_values
key_value k = object (cons (num k.alg) (cons (list (byte_values k.key)) nil))

unfoldable pub device_value : DeviceEntry → Value
unfolding key_value
device_value d = object (cons (key_value d.box) (cons (key_value d.sign) (cons (str d.label) nil)))

unfoldable pub device_values : List DeviceEntry → Values
unfolding device_value
device_values [] = nil
device_values (d ∷ ds) = cons (device_value d) (device_values ds)

unfoldable pub manifest_value : Manifest → Value
unfolding device_values key_value
manifest_value m = object (
    cons (num m.version) (
      cons (str m.screen_name) (
        cons (num m.counter) (
          cons (num m.issued_at)
            (cons (key_value m.identity) (cons (list (device_values m.devices)) nil))))))

-- The fields of a struct that was read. `none`: not the struct's, which reading never gives.
unfoldable pub value_bytes : Values → Option Bytes
value_bytes nil = some []
value_bytes (cons (num b) vs) = elim (value_bytes vs) [ none ↦ none | some bs ↦ some (b ∷ bs) ]
value_bytes vs = none

unfoldable pub value_key : Value → Option Key
unfolding value_bytes
value_key (object (cons (num alg) (cons (list vs) nil))) = elim (value_bytes vs) [
  | none ↦ none
  | some bs ↦ some (record { alg = alg; key = bs })
]
value_key v = none

unfoldable pub value_device : Value → Option DeviceEntry
unfolding value_key
value_device (object (cons b (cons s (cons (str label) nil)))) = elim (value_key b) [
  | none ↦ none
  | some box ↦ elim (value_key s) [
    | none ↦ none
    | some sign ↦ some (record { box = box; sign = sign; label = label })
  ]
]
value_device v = none

unfoldable pub value_devices : Values → Option (List DeviceEntry)
unfolding value_device
value_devices nil = some []
value_devices (cons v vs) = elim (value_device v) [
  | none ↦ none
  | some d ↦ elim (value_devices vs) [ none ↦ none | some ds ↦ some (d ∷ ds) ]
]

unfoldable pub value_manifest : Value → Option Manifest
unfolding value_devices value_key
value_manifest
      (object (
        cons (num version) (
          cons
            (str name)
            (cons (num counter) (cons (num issued) (cons identity (cons (list ds) nil))))))) =
    elim (value_key identity) [
      | none ↦ none
      | some k ↦ elim (value_devices ds) [
        | none ↦ none
        | some devices ↦ some (record {
          version = version;
          screen_name = name;
          counter = counter;
          issued_at = issued;
          identity = k;
          devices = devices;
        })
      ]
    ]
value_manifest v = none

unfoldable pub encode_manifest : Manifest → Option Bytes
unfolding manifest_value
encode_manifest m = marshal (manifest_value m) manifest_shape

unfoldable pub decode_manifest : Bytes → Option Manifest
unfolding value_manifest
decode_manifest b = elim (unmarshal manifest_shape b) [
  | err _ ↦ none
  | ok (v, _) ↦ value_manifest v
]
