-- ===== src/E2ee/Devices.antt =====
-- internal/e2ee/multidevice.go: an account's devices and their keys.
use bencchat.Prelude.{ℕ, List, [], ◌∷◌, ◌==◌, if◌then◌else◌, length, take}
use bencchat.Text.Order.{sort_strings}
use bencchat.Prelude.Bytes.{Bytes, bytes_eq}

-- `sign` is empty for a device that has no signing key.
pub record Device : Type 0 where
  pub box : Bytes
  pub sign : Bytes

abbrev pub max_recipients : ℕ
max_recipients = 32

abbrev pub max_devices : ℕ
max_devices = 5

drop_repeats : List Bytes → List Bytes
drop_repeats [] = []
drop_repeats (k ∷ []) = k ∷ []
drop_repeats (k ∷ j ∷ ks) =
    let rest = drop_repeats (j ∷ ks) in if bytes_eq k j then rest else k ∷ rest

unfoldable pub dedupe_keys : List Bytes → List Bytes
unfolding drop_repeats
dedupe_keys keys = take max_recipients (drop_repeats (sort_strings keys))

unfoldable pub boxes : List Device → List Bytes
boxes [] = []
boxes (d ∷ ds) = d.box ∷ boxes ds

unfoldable pub box_keys_of : List Device → List Bytes
unfolding boxes dedupe_keys
box_keys_of devices = dedupe_keys (boxes devices)

unfoldable pub signing_keys_of : List Device → List Bytes
signing_keys_of [] = []
signing_keys_of (d ∷ ds) =
    let rest = signing_keys_of ds in if length d.sign == 0 then rest else d.sign ∷ rest
