-- ===== src/State/Conversations/Arrival.antt =====
-- internal/state/state.go: what a message does to its thread and to the others.
use bencchat.State.Conversations.{key_of, other_party, thread_of, grown, add_message}
use bencchat.Prelude.{
  suc, zero, ℕ, ◌+◌, ◌-◌, ◌≤◌, false, List, [], ◌∷◌, ◌++◌, ltb, if◌then◌else◌, length, drop,
  length-append, some, ◌≡◌, refl, arith, Bool-cases, inl, inr,
}
use bencchat.Prelude.Bytes.{Bytes, bytes_eq, bytes_eq_iff}
use bencchat.Prelude.Assoc.{lookup, lookup-insert}
use bencchat.State.Message.{
  Message, Conversation, max_messages_per_conversation, Store, emit, newest,
}

length-drop : (n : ℕ) (ms : List Message) → length (drop n ms) ≡ length ms - n
length-drop zero ms = omega arith
length-drop (suc n) [] = omega arith
length-drop (suc n) (m ∷ ms) = omega (arith, length-drop n ms)

pub newest_short : (ms : List Message) → length (newest ms) ≤ max_messages_per_conversation
unfolding newest
newest_short ms = ground (arith, length-drop (length ms - max_messages_per_conversation) ms)

drop_last :
    (n : ℕ) (ms : List Message) (m : Message)
    → n ≤ length ms
    → drop n (ms ++ m ∷ []) ≡ drop n ms ++ m ∷ []
drop_last zero ms m h = refl
drop_last (suc n) [] m h = absurd (omega arith)
drop_last (suc n) (k ∷ ms) m h = drop_last n ms m (omega arith)

-- The scrollback before a message that is added to it.
unfoldable pub scrollback : List Message → List Message
scrollback ms =
    if ltb (length ms) max_messages_per_conversation
    then ms
    else drop (length ms + 1 - max_messages_per_conversation) ms

newest_last : (ms : List Message) (m : Message) → newest (ms ++ m ∷ []) ≡ scrollback ms ++ m ∷ []
unfolding newest scrollback
newest_last ms m =
    let grows = length-append ms (m ∷ []) in
    elim (Bool-cases (ltb (length ms) max_messages_per_conversation)) [
      | inl room ↦ ground (arith, grows, room)
      | inr full ↦ ground (
        arith,
        grows,
        full,
        drop_last (length ms + 1 - max_messages_per_conversation) ms m (ground (arith, full)),
      )
    ]

-- A message becomes the last of its thread, which is shown again, counts one more unread message if
-- it came from the other party, and keeps at most 1000 messages. No other thread changes.
pub add_message-arrives :
    (to_lower : Bytes → Bytes) (m : Message) (s : Store) (k : Bytes)
    → let (key, after) = add_message to_lower m s in
      let before = thread_of key (other_party m) s in
      (c : Conversation) × (lookup key after.conversations ≡ some c)
      × (c.messages ≡ scrollback before.messages ++ m ∷ [])
      × (length c.messages ≤ max_messages_per_conversation)
      × (c.hidden ≡ false)
      × (c.unread ≡ (if m.outgoing then before.unread else before.unread + 1))
      × (bytes_eq key k ≡ false → lookup k after.conversations ≡ lookup k s.conversations)
unfolding add_message grown emit
add_message-arrives to_lower m s k =
    let key = key_of to_lower (other_party m) in
    let before = thread_of key (other_party m) s in
    let c = grown m before in
    (
      c,
      ground (arith, lookup-insert key key c s.conversations, bytes_eq_iff key key),
      newest_last before.messages m,
      newest_short (before.messages ++ m ∷ []),
      refl,
      refl,
      λ other. ground (arith, lookup-insert key k c s.conversations, other),
    )
