-- ===== src/App/Members.antt =====
-- app_room_e2ee.go, roomMembers: who is in a room, who owns it, and who was taken out. Its maps are
-- keyed by the room's cookie and each call touches one key, so this is one room's part of them.
pub mod Authority
pub mod Sets
pub mod Apart
pub mod History
pub mod Epochs
pub mod Unions
pub mod Reaching
pub mod Invited
pub mod Stored
use bencchat.Prelude.{
  ℕ, ◌+◌, ◌-◌, ◌%◌, ◌^◌, Bool, true, false, ◌&&◌, ◌||◌, not, List, [], ◌∷◌, ltb, ◌==◌,
  if◌then◌else◌, length,
}
use bencchat.Prelude.Bytes.{Bytes, bytes_eq}
use bencchat.Text.Order.{sort_strings}
use bencchat.State.ScreenName.{normalize_screen_name, has_name, add_name, delete_name}

-- `invited` and `removed` are sets of normalized names. An absent owner is the empty name.
pub record Members : Type 0 where
  pub invited : List Bytes
  pub owner : Bytes
  pub epoch : ℕ
  pub owner_epoch : ℕ
  pub removed : List Bytes

abbrev pub no_members : Members
no_members = record { invited = []; owner = []; epoch = 0; owner_epoch = 0; removed = [] }

-- `^uint64(0)`
abbrev pub max_uint64 : ℕ
max_uint64 = 2 ^ 64 - 1

-- Whether a name is "", which is also what a missing entry reads as.
unfoldable pub is_empty : Bytes → Bool
is_empty s = length s == 0

-- `aheadOfOwner`
unfoldable pub ahead_of_owner : ℕ → Members → Bool
ahead_of_owner e m = ltb m.owner_epoch e

-- `acceptOwnerEpoch`
unfoldable pub accept_owner_epoch : ℕ → Members → Members
accept_owner_epoch e m = record m {
  owner_epoch = if ltb m.owner_epoch e then e else m.owner_epoch;
  epoch = if ltb m.epoch e then e else m.epoch;
}

-- `nextEpoch`: `cur + 1` wraps at 64 bits, and 0 is put back to the ceiling. `now` is the clock in
-- seconds; a time at or before 1970 is 0.
unfoldable pub following : ℕ → ℕ
following cur = let next = (cur + 1) % 2 ^ 64 in if next == 0 then max_uint64 else next

unfoldable pub stamp : ℕ → Members → ℕ
unfolding following
stamp now m =
    let cur = (if ltb m.epoch m.owner_epoch then m.owner_epoch else m.epoch) in
    let next = following cur in if ltb 0 now && ltb next now then now else next

unfoldable pub next_epoch : ℕ → Members → ℕ × Members
unfolding stamp
next_epoch now m = let next = stamp now m in (next, record m { epoch = next })

unfoldable pub removed_list : Members → List Bytes
removed_list m = sort_strings m.removed

module _ (to_lower : Bytes → Bytes) where
  abbrev pub norm : Bytes → Bytes
  norm sn = normalize_screen_name to_lower sn

  unfoldable pub add : Bytes → Members → Members
  unfolding add_name
  add screen_name m = record m { invited = add_name (norm screen_name) m.invited }

  unfoldable pub remove : Bytes → Members → Members
  unfolding delete_name
  remove screen_name m = record m { invited = delete_name (norm screen_name) m.invited }

  unfoldable pub was_removed : Bytes → Members → Bool
  was_removed screen_name m = has_name (norm screen_name) m.removed

  unfoldable pub is_room_member : Bytes → Members → Bool
  is_room_member screen_name m = has_name (norm screen_name) m.invited

  unfoldable pub add_all : List Bytes → Bytes → Members → Members
  unfolding add was_removed
  add_all [] self m = m
  add_all (n ∷ ns) self m =
      add_all ns self (if bytes_eq (norm n) self || was_removed n m then m else add n m)

  -- The set that `setAll` installs, and the sets that `tombstone` and `restore` build up.
  unfoldable pub others : List Bytes → Bytes → List Bytes → List Bytes
  others [] self set = set
  others (n ∷ ns) self set =
      others ns self (if bytes_eq (norm n) self then set else add_name (norm n) set)

  unfoldable pub set_all : List Bytes → Bytes → Members → Members
  unfolding others
  set_all names self m = record m { invited = others names self [] }

  unfoldable pub with_names : List Bytes → List Bytes → List Bytes
  with_names [] set = set
  with_names (n ∷ ns) set = with_names ns (add_name (norm n) set)

  unfoldable pub without_names : List Bytes → List Bytes → List Bytes
  without_names [] set = set
  without_names (n ∷ ns) set = without_names ns (delete_name (norm n) set)

  unfoldable pub pin_owner : Bytes → Members → Members
  unfolding is_empty
  pin_owner owner m = if is_empty m.owner then record m { owner = norm owner } else m

  unfoldable pub tombstone : List Bytes → List Bytes → Members → Members
  unfolding with_names without_names
  tombstone gone present m = record m {
    removed = without_names present (with_names gone m.removed);
  }

  unfoldable pub restore : Bytes → ℕ → ℕ → List Bytes → Members → Members
  unfolding with_names is_empty
  restore owner epoch owner_epoch removed m = record m {
    removed = with_names removed m.removed;
    owner = if is_empty owner then m.owner else owner;
    epoch = if ltb m.epoch epoch then epoch else m.epoch;
    owner_epoch = if ltb m.owner_epoch owner_epoch then owner_epoch else m.owner_epoch;
  }
