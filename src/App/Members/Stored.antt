-- ===== src/App/Members/Stored.antt =====
-- app_room_e2ee.go: the membership part of a room's record on disk, written over the one there.
use bencchat.Prelude.{
  ℕ, ◌≤◌, true, false, ◌||◌, ◌&&◌, not, List, [], ◌∷◌, if◌then◌else◌, ◌≡◌, refl, arith, length, ltb,
  ◌==◌,
}
use bencchat.Prelude.Bytes.{Bytes, bytes_eq, bytes_eq_iff}
use bencchat.Text.Order.{sort_strings, insert_sorted}
use bencchat.State.ScreenName.{has_name}
use bencchat.App.Members.{
  Members, no_members, norm, is_empty, add_all, restore, with_names, removed_list,
}
use bencchat.App.Members.Sets.{
  names-sort_strings, names, has_name-add_all, add_all_rest, has_name-with_names,
}

pub record StoredMembers : Type 0 where
  pub members : List Bytes
  pub owner : Bytes
  pub roster_epoch : ℕ
  pub owner_epoch : ℕ
  pub removed : List Bytes

module _ (to_lower : Bytes → Bytes) where
  unfoldable pub union_sorted : List Bytes → List Bytes → List Bytes
  unfolding with_names
  union_sorted a b = sort_strings (with_names to_lower b (with_names to_lower a []))

  -- The names whose normal form is not in a set.
  unfoldable pub unless_in : List Bytes → List Bytes → List Bytes
  unless_in gone [] = []
  unless_in gone (n ∷ ns) =
      let rest = unless_in gone ns in if has_name (norm to_lower n) gone then rest else n ∷ rest

  unfoldable pub filter_names : List Bytes → List Bytes → List Bytes
  unfolding with_names unless_in
  filter_names names drop = unless_in (with_names to_lower drop []) names

  -- The live state over the record that is there: the marks only rise, the pin on disk stands, and
  -- an empty list of members is a restore that never ran.
  unfoldable pub merge_members : Members → StoredMembers → StoredMembers
  unfolding is_empty removed_list union_sorted filter_names
  merge_members live prev =
      let gone = union_sorted (removed_list live) prev.removed in
      record {
        members =
            filter_names (if length live.invited == 0 then prev.members else live.invited) gone;
        owner =
            if is_empty live.owner
            then prev.owner
            else if not (is_empty prev.owner) && not (bytes_eq prev.owner live.owner)
            then prev.owner
            else live.owner;
        roster_epoch = if ltb live.epoch prev.roster_epoch then prev.roster_epoch else live.epoch;
        owner_epoch =
            if ltb live.owner_epoch prev.owner_epoch then prev.owner_epoch else live.owner_epoch;
        removed = gone;
      }

  -- Tombstones first, members second.
  unfoldable pub apply_members : Bytes → StoredMembers → Members → Members
  unfolding restore add_all
  apply_members self r m =
      add_all to_lower r.members self
        (restore to_lower r.owner r.roster_epoch r.owner_epoch r.removed m)

is_empty_lem : (s : Bytes) → is_empty s ≡ true → s ≡ []
unfolding is_empty
is_empty_lem [] h = refl
is_empty_lem (c ∷ cs) h = absurd (ground (arith, h))

module _ (to_lower : Bytes → Bytes) where
  has_name-insert_sorted :
      (k s : Bytes) (ts : List Bytes)
      → has_name k (insert_sorted s ts) ≡ (bytes_eq s k || has_name k ts)
  unfolding has_name insert_sorted
  has_name-insert_sorted k s [] = ground arith
  has_name-insert_sorted k s (t ∷ ts) = ground (arith, has_name-insert_sorted k s ts)

  has_name-sort_strings :
      (k : Bytes) (ns : List Bytes) → has_name k (sort_strings ns) ≡ has_name k ns
  unfolding has_name sort_strings
  has_name-sort_strings k [] = refl
  has_name-sort_strings k (n ∷ ns) =
      ground (arith, has_name-sort_strings k ns, has_name-insert_sorted k n (sort_strings ns))

  names-unless_in :
      (k : Bytes) (gone ns : List Bytes)
      → names to_lower k (unless_in to_lower gone ns)
        ≡ (names to_lower k ns && not (has_name k gone))
  unfolding names unless_in
  names-unless_in k gone [] = refl
  names-unless_in k gone (n ∷ ns) =
      ground (arith, names-unless_in k gone ns, bytes_eq_iff (norm to_lower n) k)

  union_sorted-names :
      (k : Bytes) (live : Members) (prev : StoredMembers)
      → has_name k (union_sorted to_lower (removed_list live) prev.removed)
        ≡ (names to_lower k live.removed || names to_lower k prev.removed)
  unfolding union_sorted removed_list has_name
  union_sorted-names k live prev =
      let first = with_names to_lower (sort_strings live.removed) [] in
      ground (
        arith,
        has_name-sort_strings k (with_names to_lower prev.removed first),
        has_name-with_names to_lower k prev.removed first,
        has_name-with_names to_lower k (sort_strings live.removed) [],
        names-sort_strings to_lower k live.removed,
      )

  -- A record never loses a mark: no epoch falls, no removal is forgotten, an owner on disk stays the
  -- owner and a live one is kept where the disk has none, and nobody removed is written as a member.
  pub merge_members-ratchets :
      (live : Members) (prev : StoredMembers) (k : Bytes)
      → let new = merge_members to_lower live prev in
        (live.epoch ≤ new.roster_epoch)
        × (prev.roster_epoch ≤ new.roster_epoch)
        × (live.owner_epoch ≤ new.owner_epoch)
        × (prev.owner_epoch ≤ new.owner_epoch)
        × (has_name k new.removed
            ≡ (names to_lower k live.removed || names to_lower k prev.removed))
        × (is_empty prev.owner ≡ false → new.owner ≡ prev.owner)
        × (is_empty prev.owner ≡ true → new.owner ≡ live.owner)
        × (names to_lower k new.members ≡ true → names to_lower k new.removed ≡ false)
  unfolding merge_members filter_names has_name
  merge_members-ratchets live prev k =
      let gone = union_sorted to_lower (removed_list live) prev.removed in
      let kept = (if length live.invited == 0 then prev.members else live.invited) in
      ground (
        arith,
        is_empty_lem prev.owner,
        is_empty_lem live.owner,
        bytes_eq_iff prev.owner live.owner,
        union_sorted-names k live prev,
        names-unless_in k (with_names to_lower gone []) kept,
        has_name-with_names to_lower k gone [],
      )

  -- Applied to a room that was forgotten, a record gives back its marks and its removals, and nobody
  -- is both a member and removed, whatever the record says.
  pub apply_members-restores :
      (self : Bytes) (r : StoredMembers) (k : Bytes)
      → let after = apply_members to_lower self r no_members in
        (after.epoch ≡ r.roster_epoch)
        × (after.owner_epoch ≡ r.owner_epoch)
        × (after.owner ≡ r.owner)
        × (has_name k after.removed ≡ names to_lower k r.removed)
        × (has_name k after.invited ≡ (
            names to_lower k r.members
            && not (bytes_eq k self)
            && not (names to_lower k r.removed)))
  unfolding apply_members restore has_name is_empty
  apply_members-restores self r k =
      let base = restore to_lower r.owner r.roster_epoch r.owner_epoch r.removed no_members in
      ground (
        arith,
        add_all_rest to_lower self r.members base,
        has_name-add_all to_lower k self r.members base,
        has_name-with_names to_lower k r.removed [],
      )
