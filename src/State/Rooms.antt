-- ===== src/State/Rooms.antt =====
-- internal/state/state.go: the rooms of a Store.
pub mod Keys
pub mod TimeOrder
pub mod Merging
use bencchat.Prelude.{
  ℕ, ◌+◌, Bool, true, false, ◌&&◌, ◌||◌, not, List, [], ◌∷◌, ◌++◌, ltb, ◌==◌, if◌then◌else◌, length,
  Option, none, some,
}
use bencchat.Prelude.Bytes.{Bytes, bytes_eq}
use bencchat.Prelude.Assoc.{lookup, insert}
use bencchat.State.ScreenName.{normalize_screen_name, has_name}
use bencchat.State.Message.{
  Message, ChatRoom, Event, room_event, room_message_event, rooms_restored, Store, emit, newest,
  delete_key,
}

unfoldable pub new_room : Bytes → ChatRoom
new_room cookie = record {
  cookie = cookie;
  name = [];
  joined = false;
  participants = [];
  messages = [];
}

unfoldable pub room_of : Bytes → Store → ChatRoom
unfolding new_room
room_of cookie s = elim (lookup cookie s.rooms) [ none ↦ new_room cookie | some r ↦ r ]

unfoldable pub keep_room : Bytes → ChatRoom → Store → Store
keep_room cookie r s = record s { rooms = insert cookie r s.rooms }

unfoldable pub upsert_room : Bytes → Bytes → Store → Store
unfolding emit room_of keep_room
upsert_room cookie name s =
    let r = room_of cookie s in
    emit (room_event cookie)
      (keep_room cookie (if length name == 0 then r else record r { name = name }) s)

unfoldable pub set_room_joined : Bytes → Bool → Store → Store
unfolding emit room_of keep_room
set_room_joined cookie joined s =
    let r = record (room_of cookie s) { joined = joined } in
    emit (room_event cookie)
      (keep_room cookie (if joined then r else record r { participants = [] }) s)

unfoldable pub restored_rooms : List ChatRoom → List (Bytes × ChatRoom) → List (Bytes × ChatRoom)
restored_rooms [] held = held
restored_rooms (r ∷ rs) held = restored_rooms rs (
    if length r.cookie == 0
    then held
    else insert r.cookie (record r { joined = false; participants = [] }) held)

unfoldable pub restore_rooms : List ChatRoom → Store → Store
unfolding restored_rooms emit
restore_rooms rs s = emit rooms_restored (record s { rooms = restored_rooms rs [] })

unfoldable pub remove_room : Bytes → Store → Store
unfolding emit delete_key
remove_room cookie s = emit (room_event cookie) (record s { rooms = delete_key cookie s.rooms })

unfoldable pub add_room_message : Bytes → Message → Store → Store
unfolding emit room_of keep_room newest
add_room_message cookie m s =
    let r = room_of cookie s in
    emit (room_message_event cookie m)
      (keep_room cookie (record r { messages = newest (r.messages ++ m ∷ []) }) s)

module _ (to_lower : Bytes → Bytes) where
  unfoldable pub normal_names : List Bytes → List Bytes
  normal_names [] = []
  normal_names (n ∷ ns) = normalize_screen_name to_lower n ∷ normal_names ns

  -- The names that are not empty and not had yet, each once; `have` holds normal forms.
  unfoldable pub new_names : List Bytes → List Bytes → List Bytes
  new_names have [] = []
  new_names have (n ∷ ns) =
      let key = normalize_screen_name to_lower n in
      let without = new_names have ns in
      let with = new_names (key ∷ have) ns in
      if length n == 0 || has_name key have then without else n ∷ with

  unfoldable pub room_users_joined : Bytes → List Bytes → Store → Store
  unfolding emit room_of keep_room normal_names new_names
  room_users_joined cookie names s =
      let r = room_of cookie s in
      let arrived = new_names (normal_names r.participants) names in
      if length names == 0
      then s
      else emit (room_event cookie)
          (keep_room cookie (record r { participants = r.participants ++ arrived }) s)

  unfoldable pub staying : List Bytes → List Bytes → List Bytes
  staying gone [] = []
  staying gone (p ∷ ps) =
      let rest = staying gone ps in
      if has_name (normalize_screen_name to_lower p) gone then rest else p ∷ rest

  unfoldable pub room_users_left : Bytes → List Bytes → Store → Store
  unfolding emit keep_room normal_names staying
  room_users_left cookie names s = if length names == 0 then s else elim (lookup cookie s.rooms) [
    | none ↦ s
    | some r ↦ emit (room_event cookie) (
        keep_room cookie (record r { participants = staying (normal_names names) r.participants })
          s)
  ]

-- The order of the messages of a merged room: by time, and those of one time as they stood.
unfoldable pub insert_by_time : Message → List Message → List Message
insert_by_time m [] = m ∷ []
insert_by_time m (n ∷ ns) =
    let rest = insert_by_time m ns in if ltb n.at m.at then n ∷ rest else m ∷ n ∷ ns

unfoldable pub sort_by_time : List Message → List Message
unfolding insert_by_time
sort_by_time [] = []
sort_by_time (m ∷ ms) = insert_by_time m (sort_by_time ms)

-- `format` is Go's rendering of a time in UTC to the second.
module _ (format : ℕ → Bytes) where
  unfoldable pub room_msg_key : Message → Bytes
  room_msg_key m = m.sender ++ 0 ∷ format m.at ++ 0 ∷ m.text

  unfoldable pub msg_keys : List Message → List Bytes
  unfolding room_msg_key
  msg_keys [] = []
  msg_keys (m ∷ ms) = room_msg_key m ∷ msg_keys ms

  -- The messages whose keys are not had yet, each once.
  unfoldable pub unseen : List Bytes → List Message → List Message
  unfolding room_msg_key
  unseen have [] = []
  unseen have (m ∷ ms) =
      let without = unseen have ms in
      let with = unseen (room_msg_key m ∷ have) ms in
      if has_name (room_msg_key m) have then without else m ∷ with

  unfoldable pub merge_messages : List Message → List Message → ℕ × List Message
  unfolding msg_keys unseen sort_by_time newest
  merge_messages held msgs =
      let new = unseen (msg_keys held) msgs in
      (length new, if ltb 0 (length new) then newest (sort_by_time (held ++ new)) else held)

  unfoldable pub merge_room_messages : Bytes → List Message → Store → ℕ × Store
  unfolding merge_messages emit keep_room
  merge_room_messages cookie msgs s =
      if length msgs == 0 then (0, s) else elim (lookup cookie s.rooms) [
        | none ↦ (0, s)
        | some r ↦
            let merged = merge_messages r.messages msgs in
            let kept = keep_room cookie (record r { messages = merged.1 }) s in
            (merged.0, if ltb 0 merged.0 then emit (room_event cookie) kept else kept)
      ]
