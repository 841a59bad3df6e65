-- ===== src/Wire/Manifest/RoundTrip.antt =====
-- A manifest reads back from the bytes that were signed.
use bencchat.Prelude.{◌≡◌, some, List, [], ◌∷◌, ◌++◌, refl, arith, true}
use bencchat.Prelude.Bytes.{Bytes}
use bencchat.Wire.Codec.Fits.{fits}
use bencchat.Wire.Codec.RoundTrip.{unmarshal-marshal}
use bencchat.Wire.Manifest.{
  Key, DeviceEntry, Manifest, manifest_shape, byte_values, key_value, device_value, device_values,
  manifest_value, value_bytes, value_key, value_device, value_devices, value_manifest,
  encode_manifest, decode_manifest,
}

value_bytes-byte_values : (bs : Bytes) → value_bytes (byte_values bs) ≡ some bs
unfolding value_bytes byte_values
value_bytes-byte_values [] = refl
value_bytes-byte_values (b ∷ bs) = ground (arith, value_bytes-byte_values bs)

value_key-key_value : (k : Key) → value_key (key_value k) ≡ some k
unfolding value_key key_value
value_key-key_value k = ground (arith, value_bytes-byte_values k.key)

value_device-device_value : (d : DeviceEntry) → value_device (device_value d) ≡ some d
unfolding value_device device_value
value_device-device_value d = ground (arith, value_key-key_value d.box, value_key-key_value d.sign)

value_devices-device_values : (ds : List DeviceEntry) → value_devices (device_values ds) ≡ some ds
unfolding value_devices device_values
value_devices-device_values [] = refl
value_devices-device_values (d ∷ ds) =
    ground (arith, value_device-device_value d, value_devices-device_values ds)

value_manifest-manifest_value : (m : Manifest) → value_manifest (manifest_value m) ≡ some m
unfolding value_manifest manifest_value
value_manifest-manifest_value m =
    ground (arith, value_key-key_value m.identity, value_devices-device_values m.devices)

-- A manifest whose fields fit their prefixes is encoded without an error, and decodes to itself,
-- whatever stands behind it.
pub decode_manifest-encode_manifest :
    (m : Manifest)
    → fits (manifest_value m) manifest_shape ≡ true
    → (b : Bytes) × (encode_manifest m ≡ some b)
      × ((rest : Bytes) → decode_manifest (b ++ rest) ≡ some m)
unfolding encode_manifest decode_manifest
decode_manifest-encode_manifest m h =
    let (b, written, read) = unmarshal-marshal (manifest_value m) manifest_shape h in
    (b, written, λ rest. ground (arith, read rest, value_manifest-manifest_value m))
