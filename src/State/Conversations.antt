-- ===== src/State/Conversations.antt =====
-- internal/state/state.go: the threads of a Store.
pub mod Arrival
pub mod Steps
pub mod Tidy
use bencchat.Prelude.{
  ℕ, ◌+◌, Bool, true, false, ◌&&◌, not, List, [], ◌∷◌, ◌++◌, ltb, ◌==◌, if◌then◌else◌, length,
  Option, none, some,
}
use bencchat.Prelude.Bytes.{Bytes, bytes_eq}
use bencchat.Prelude.Assoc.{lookup, insert}
use bencchat.State.ScreenName.{normalize_screen_name}
use bencchat.State.Message.{
  Message, Conversation, ChatRoom, Event, message_event, thread_event, conversations_changed, Store,
  emit, newest, delete_key,
}

-- The other party of a message.
unfoldable pub other_party : Message → Bytes
other_party m = if m.outgoing then m.recipient else m.sender

unfoldable pub new_thread : Bytes → Bytes → Conversation
new_thread key other = record {
  key = key;
  screen_name = other;
  messages = [];
  unread = 0;
  hidden = false;
}

unfoldable pub thread_of : Bytes → Bytes → Store → Conversation
unfolding new_thread
thread_of key other s = elim (lookup key s.conversations) [
  | none ↦ new_thread key other
  | some c ↦ c
]

unfoldable pub grown : Message → Conversation → Conversation
unfolding newest
grown m c = record c {
  hidden = false;
  messages = newest (c.messages ++ m ∷ []);
  unread = if m.outgoing then c.unread else c.unread + 1;
}

-- Sets the flag on the last outgoing message with a cookie; false where there is none.
unfoldable pub flag_last : ℕ → Bool → List Message → Bool × List Message
flag_last cookie not_sent [] = (false, [])
flag_last cookie not_sent (m ∷ ms) =
    let rest = flag_last cookie not_sent ms in
    if rest.0
    then (true, m ∷ rest.1)
    else if m.outgoing && m.cookie == cookie
    then (true, record m { not_sent = not_sent } ∷ ms)
    else (false, m ∷ ms)

-- Takes the first outgoing message with an id out of a thread.
unfoldable pub take_first : Bytes → List Message → Option (Message × List Message)
take_first id [] = none
take_first id (m ∷ ms) =
    let rest = take_first id ms in
    if m.outgoing && bytes_eq m.id id
    then some (m, ms)
    else elim rest [ none ↦ none | some found ↦ some (found.0, m ∷ found.1) ]

unfoldable pub clear_messages : List (Bytes × ChatRoom) → List (Bytes × ChatRoom)
clear_messages [] = []
clear_messages ((k, r) ∷ rs) = (k, record r { messages = [] }) ∷ clear_messages rs

module _ (to_lower : Bytes → Bytes) where
  abbrev pub key_of : Bytes → Bytes
  key_of sn = normalize_screen_name to_lower sn

  unfoldable pub add_message : Message → Store → Bytes × Store
  unfolding other_party thread_of grown emit
  add_message m s =
      let other = other_party m in
      let key = key_of other in
      let c = grown m (thread_of key other s) in
      (key, emit (message_event key m) (record s { conversations = insert key c s.conversations }))

  unfoldable pub set_message_not_sent : Bytes → ℕ → Bool → Store → Bool × Store
  unfolding flag_last emit
  set_message_not_sent screen_name cookie not_sent s =
      let key = key_of screen_name in
      elim (lookup key s.conversations) [
        | none ↦ (false, s)
        | some c ↦
            let flagged = flag_last cookie not_sent c.messages in
            if flagged.0
            then (
              true,
              emit (thread_event key) (record s {
                conversations = insert key (record c { messages = flagged.1 }) s.conversations;
              }),
            )
            else (false, s)
      ]

  unfoldable pub take_message : Bytes → Bytes → Store → Option Bytes × Store
  unfolding take_first emit
  take_message screen_name id s =
      let key = key_of screen_name in
      elim (lookup key s.conversations) [
        | none ↦ (none, s)
        | some c ↦
            let found = (if length id == 0 then none else take_first id c.messages) in
            elim found [
              | none ↦ (none, s)
              | some taken ↦ (
                some taken.0.text,
                emit (thread_event key) (record s {
                  conversations = insert key (record c { messages = taken.1 }) s.conversations;
                }),
              )
            ]
      ]

  unfoldable pub mark_read : Bytes → Store → Store
  unfolding emit
  mark_read screen_name s =
      let key = key_of screen_name in
      elim (lookup key s.conversations) [
        | none ↦ s
        | some c ↦
            if c.unread == 0
            then s
            else emit conversations_changed
                (record s { conversations = insert key (record c { unread = 0 }) s.conversations })
      ]

  unfoldable pub close_conversation : Bytes → Store → Store
  unfolding emit
  close_conversation screen_name s =
      let key = key_of screen_name in
      emit conversations_changed (elim (lookup key s.conversations) [
        | none ↦ s
        | some c ↦ record s {
          conversations = insert key (record c { hidden = true; unread = 0 }) s.conversations;
        }
      ])

  unfoldable pub clear_conversation : Bytes → Store → Store
  unfolding emit delete_key
  clear_conversation screen_name s =
      emit conversations_changed
        (record s { conversations = delete_key (key_of screen_name) s.conversations })

  unfoldable pub reopen_conversation : Bytes → Store → Store
  unfolding emit
  reopen_conversation screen_name s =
      let key = key_of screen_name in
      elim (lookup key s.conversations) [
        | none ↦ s
        | some c ↦
            if c.hidden
            then emit conversations_changed (record s {
              conversations = insert key (record c { hidden = false }) s.conversations;
            })
            else s
      ]

  unfoldable pub restored_key : Conversation → Bytes
  restored_key c = if length c.key == 0 then key_of c.screen_name else c.key

  unfoldable pub restored_threads :
      List Conversation → List (Bytes × Conversation) → List (Bytes × Conversation)
  unfolding restored_key
  restored_threads [] held = held
  restored_threads (c ∷ cs) held =
      let key = restored_key c in
      restored_threads cs
        (if length key == 0 then held else insert key (record c { key = key; unread = 0 }) held)

  unfoldable pub restore_conversations : List Conversation → Store → Store
  unfolding restored_threads emit
  restore_conversations cs s =
      emit conversations_changed (record s { conversations = restored_threads cs [] })

unfoldable pub clear_conversations : Store → Store
unfolding clear_messages emit
clear_conversations s =
    emit conversations_changed (record s { conversations = []; rooms = clear_messages s.rooms })
