-- ===== src/State/Message.antt =====
-- internal/state/state.go: messages, threads and rooms, and the store that holds them.
use bencchat.Prelude.{
  true, false, not, ℕ, ◌-◌, Bool, List, [], ◌∷◌, ltb, if◌then◌else◌, length, drop,
}
use bencchat.Prelude.Bytes.{Bytes, bytes_eq}

-- From is `sender` and To is `recipient`. Times are in milliseconds.
pub record Message : Type 0 where
  pub sender : Bytes
  pub recipient : Bytes
  pub text : Bytes
  pub at : ℕ
  pub outgoing : Bool
  pub cookie : ℕ
  pub id : Bytes
  pub not_sent : Bool
  pub auto_response : Bool
  pub encrypted : Bool
  pub sender_verified : Bool
  pub signed : Bool
  pub transferred : Bool
  pub forged : Bool
  pub envelope : Bytes
  pub cipher : Bytes

pub record Conversation : Type 0 where
  pub key : Bytes
  pub screen_name : Bytes
  pub messages : List Message
  pub unread : ℕ
  pub hidden : Bool

pub record ChatRoom : Type 0 where
  pub cookie : Bytes
  pub name : Bytes
  pub joined : Bool
  pub participants : List Bytes
  pub messages : List Message

-- An empty presence is one that was not set.
pub data Presence : Type 0 where
  unset offline online away idle : Presence

pub record Buddy : Type 0 where
  pub screen_name : Bytes
  pub key : Bytes
  pub group : Bytes
  pub alias : Bytes
  pub presence : Presence
  pub away_message : Bytes
  pub profile : Bytes
  pub blocked : Bool
  pub pending : Bool
  pub icon_hash : Bytes
  pub e2ee_capable : Bool
  pub caps_known : Bool
  pub idle_since : ℕ
  pub signed_on_at : ℕ

pub record Self : Type 0 where
  pub screen_name : Bytes
  pub presence : Presence
  pub away_message : Bytes
  pub warning_level : ℕ

-- The events, without the snapshots of threads and rooms they carry.
pub data Event : Type 0 where
  message_event room_message_event : Bytes → Message → Event
  thread_event room_event : Bytes → Event
  conversations_changed rooms_restored buddy_list_changed self_changed : Event
  buddy_changed : Buddy → Event

-- A Store, with the events it has emitted, newest first, in place of its subscribers.
pub record Store : Type 0 where
  pub conversations : List (Bytes × Conversation)
  pub rooms : List (Bytes × ChatRoom)
  pub events : List Event
  pub own : Self
  pub buddies : List (Bytes × Buddy)
  pub group_order : List Bytes
  pub icons : List (Bytes × Bytes)

abbrev pub max_messages_per_conversation : ℕ
max_messages_per_conversation = 1000

abbrev pub nobody : Self
nobody = record { screen_name = []; presence = offline; away_message = []; warning_level = 0 }

-- `NewStore`
abbrev pub new_store : Store
new_store = record {
  conversations = [];
  rooms = [];
  events = [];
  own = nobody;
  buddies = [];
  group_order = [];
  icons = [];
}

unfoldable pub emit : Event → Store → Store
emit e s = record s { events = e ∷ s.events }

-- The cap on scrollback: only the newest are kept.
unfoldable pub newest : List Message → List Message
newest ms =
    if ltb max_messages_per_conversation (length ms)
    then drop (length ms - max_messages_per_conversation) ms
    else ms

-- `delete(m, k)` of a map.
unfoldable pub delete_key {ℓ} : {V : Type ℓ} → Bytes → List (Bytes × V) → List (Bytes × V)
delete_key k [] = []
delete_key k ((j, v) ∷ m) =
    let rest = delete_key k m in if bytes_eq j k then rest else (j, v) ∷ rest

-- `==` of two flags.
unfoldable pub same_flag : Bool → Bool → Bool
same_flag true b = b
same_flag false b = not b
