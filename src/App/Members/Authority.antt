-- ===== src/App/Members/Authority.antt =====
-- app_room_e2ee.go: whose statements change a room's membership, and what a removal sends out.
use bencchat.Prelude.{
  ℕ, Bool, true, false, ◌&&◌, ◌||◌, not, List, [], ◌∷◌, ◌++◌, ◌==◌, if◌then◌else◌, length, Option,
  none, some,
}
use bencchat.Prelude.Bytes.{Bytes, bytes_eq}
use bencchat.Prelude.Outcome.{Result, ok, err}
use bencchat.Text.Order.{sort_strings}
use bencchat.State.ScreenName.{has_name}
use bencchat.E2ee.Roster.{Roster}
use bencchat.App.Members.{
  Members, is_empty, norm, add, remove, was_removed, is_room_member, add_all, set_all, pin_owner,
  tombstone, accept_owner_epoch, ahead_of_owner, next_epoch, removed_list,
}

-- What App and Client know of one room, as far as membership goes. `joined` is whether the store has
-- the room, `stale` whether our chain waits to be replaced. `warnings` holds the authors of the
-- refused removals the user is told of, `sent` the calls of SendRoster.
pub record Room : Type 0 where
  pub name : Bytes
  pub encrypted : Bool
  pub joined : Bool
  pub members : Members
  pub stale : Bool
  pub warnings : List Bytes
  pub sent : List (Roster × List Bytes)

pub data RosterRefusal : Type 0 where
  not_signed_on no_owner_pinned : RosterRefusal

pub data RekeyError : Type 0 where
  not_encrypted not_in_room no_owner not_owner : RekeyError

pub data InviteError : Type 0 where
  empty_name plain_room absent_room unowned_room owner_must_invite unreachable : InviteError

-- `MarkChainStale`
unfoldable pub mark_chain_stale : Room → Room
mark_chain_stale room = record room { stale = true }

unfoldable pub room_roster : Bytes → Members → List Bytes
unfolding is_empty
room_roster self m = sort_strings (if is_empty self then m.invited else m.invited ++ self ∷ [])

-- The statement; the author's signature is added where it is sent.
unfoldable pub stated : Bytes → Bytes → ℕ → List Bytes → Members → Roster
unfolding room_roster
stated self name epoch removed m = record {
  room = name;
  epoch = epoch;
  members = room_roster self m;
  removed = removed;
  owner = m.owner;
  author = self;
  signer = [];
  signature = [];
}

unfoldable pub signed_roster : Bytes → ℕ → Bytes → Members → Result RosterRefusal Roster × Members
unfolding is_empty next_epoch stated removed_list accept_owner_epoch
signed_roster self now name m =
    if is_empty self
    then (err not_signed_on, m)
    else if is_empty m.owner
    then (err no_owner_pinned, m)
    else let (epoch, claimed) = next_epoch now m in
      if bytes_eq self m.owner
      then (
        ok (stated self name epoch (removed_list claimed) claimed),
        accept_owner_epoch epoch claimed,
      )
      else (ok (stated self name epoch [] claimed), claimed)

-- Those of a list that are not in a set, and whether there is any.
unfoldable pub outside : List Bytes → List Bytes → List Bytes
outside set [] = []
outside set (n ∷ ns) = let rest = outside set ns in if has_name n set then rest else n ∷ rest

-- `send` is Client.SendRoster: nothing on an error, and else whom the roster did not reach.
unfoldable pub distribute_roster :
    (Roster → List Bytes → Option (List Bytes)) → Bytes → ℕ → List Bytes → Room → List Bytes × Room
unfolding outside signed_roster
distribute_roster send self now skip room =
    let tell = outside skip room.members.invited in
    let answer = signed_roster self now room.name room.members in
    elim answer.0 [
      | err e ↦ (tell, record room { members = answer.1 })
      | ok r ↦
          let told = record room { members = answer.1; sent = (r, tell) ∷ room.sent } in
          elim (send r tell) [ none ↦ (tell, told) | some failed ↦ (failed, told) ]
    ]

module _ (to_lower : Bytes → Bytes) where
  -- The names of a list that are not tombstoned yet.
  unfoldable pub newly_removed : List Bytes → Members → List Bytes
  unfolding was_removed
  newly_removed [] m = []
  newly_removed (n ∷ ns) m =
      let rest = newly_removed ns m in if was_removed to_lower n m then rest else n ∷ rest

  unfoldable pub normalized : List Bytes → List Bytes
  normalized [] = []
  normalized (n ∷ ns) = norm to_lower n ∷ normalized ns

  unfoldable pub entitled : Bytes → Roster → Members → Bool
  unfolding is_empty is_room_member
  entitled self r m =
      not (is_empty m.owner)
      && bytes_eq (norm to_lower r.owner) m.owner
      && (bytes_eq (norm to_lower r.author) m.owner
          || bytes_eq (norm to_lower r.author) self
          || is_room_member to_lower (norm to_lower r.author) m)

  unfoldable pub tries_removal : Roster → Members → Bool
  unfolding outside normalized
  tries_removal r m =
      not (length (outside (normalized r.members) m.invited) == 0) || not (length r.removed == 0)

  unfoldable pub join_in : Bytes → Roster → Room → Room
  unfolding tries_removal add_all
  join_in self r room = record room {
    members = add_all to_lower r.members self room.members;
    warnings = if tries_removal r room.members then r.author ∷ room.warnings else room.warnings;
  }

  unfoldable pub installed : Bytes → Roster → Members → Members
  unfolding tombstone set_all accept_owner_epoch
  installed self r m =
      accept_owner_epoch r.epoch
        (set_all to_lower r.members self (tombstone to_lower r.removed r.members m))

  unfoldable pub obey : Bytes → Roster → Room → Room
  unfolding newly_removed installed
  obey self r room = record room {
    members = installed self r room.members;
    stale = if length (newly_removed r.removed room.members) == 0 then room.stale else true;
  }

  unfoldable pub apply_roster : Bytes → Roster → Room → Room
  unfolding entitled join_in ahead_of_owner obey
  apply_roster self r room =
      if not (entitled self r room.members)
      then room
      else if not (bytes_eq (norm to_lower r.author) room.members.owner)
      then join_in self r room
      else if not (ahead_of_owner r.epoch room.members)
      then room
      else obey self r room

  -- Each name is taken off the list, and all are tombstoned.
  unfoldable pub remove_all : List Bytes → Members → Members
  unfolding remove
  remove_all [] m = m
  remove_all (d ∷ ds) m = remove_all ds (remove to_lower d m)

  unfoldable pub dropped : List Bytes → Members → Members
  unfolding remove_all tombstone
  dropped drop m = tombstone to_lower drop [] (remove_all drop m)

  unfoldable pub rekey_room :
      (Roster → List Bytes → Option (List Bytes))
      → Bytes
      → ℕ
      → List Bytes
      → Room
      → Result RekeyError (List Bytes × Room)
  unfolding is_empty dropped mark_chain_stale normalized distribute_roster
  rekey_room send self now drop room =
      if not room.encrypted
      then err not_encrypted
      else if not room.joined
      then err not_in_room
      else if not (length drop == 0) && is_empty room.members.owner
      then err no_owner
      else if not (length drop == 0) && not (bytes_eq room.members.owner self)
      then err not_owner
      else let marked = mark_chain_stale (record room { members = dropped drop room.members }) in
        if length drop == 0
        then ok ([], marked)
        else ok (distribute_roster send self now (normalized drop) marked)

  -- `deliver` is the sealing and sending of the invitation with our statement signed in it, or with
  -- none; false where Client.InviteToRoom fails.
  unfoldable pub invite_newcomer :
      (Result RosterRefusal Roster → Bool)
      → (Roster → List Bytes → Option (List Bytes))
      → Bytes
      → ℕ
      → Bytes
      → Bool
      → Room
      → Result InviteError (List Bytes) × Room
  unfolding add remove tombstone signed_roster distribute_roster normalized
  invite_newcomer deliver send self now screen_name lifted room =
      let recorded = add to_lower screen_name room.members in
      let answer = signed_roster self now room.name recorded in
      if deliver answer.0
      then (let told =
            distribute_roster send self now (normalized (screen_name ∷ []))
              (record room { members = answer.1 }) in
          (ok told.0, told.1))
      else let back = remove to_lower screen_name answer.1 in
        (
          err unreachable,
          record room {
            members = if lifted then tombstone to_lower (screen_name ∷ []) [] back else back;
          },
        )

  unfoldable pub invite_to_room :
      (Bytes → Bytes)
      → (Result RosterRefusal Roster → Bool)
      → (Roster → List Bytes → Option (List Bytes))
      → Bytes
      → ℕ
      → Bytes
      → Room
      → Result InviteError (List Bytes) × Room
  unfolding is_empty was_removed tombstone invite_newcomer
  invite_to_room trim_space deliver send self now given room =
      let screen_name = trim_space given in
      let gone = was_removed to_lower screen_name room.members in
      if is_empty screen_name
      then (err empty_name, room)
      else if not room.encrypted
      then (err plain_room, room)
      else if not room.joined
      then (err absent_room, room)
      else if is_empty room.members.owner
      then (err unowned_room, room)
      else if gone && not (bytes_eq room.members.owner self)
      then (err owner_must_invite, room)
      else if gone
      then invite_newcomer deliver send self now screen_name true
          (record room { members = tombstone to_lower [] (screen_name ∷ []) room.members })
      else invite_newcomer deliver send self now screen_name false room

  -- What an accepted invitation says of membership; `verified` is nothing where it carried no roster
  -- that verifies. The views of its chains are learned in Client.RoomCrypto.
  unfoldable pub adopt_roster : Bytes → Roster → Members → Members
  unfolding pin_owner accept_owner_epoch tombstone add_all
  adopt_roster self r m =
      let pinned = pin_owner to_lower r.owner m in
      add_all to_lower r.members self (
        if bytes_eq (norm to_lower r.author) (norm to_lower r.owner)
        then tombstone to_lower r.removed r.members (accept_owner_epoch r.epoch pinned)
        else pinned)

  unfoldable pub adopt_invite_state : Bytes → Bytes → Option Roster → Room → Room
  unfolding add adopt_roster
  adopt_invite_state self sender verified room =
      let known = add to_lower sender room.members in
      record room {
        encrypted = true;
        members = elim verified [ none ↦ known | some r ↦ adopt_roster self r known ];
      }
