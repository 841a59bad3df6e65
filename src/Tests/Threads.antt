-- ===== src/Tests/Threads.antt =====
-- The state store at concrete inputs.
use bencchat.Prelude.{
  true, ℕ, ◌≤◌, ◌≡◌, refl, arith, false, List, [], ◌∷◌, ◌++◌, some, length, Option, ◌||◌,
}
use bencchat.Prelude.Bytes.{Bytes, bytes_eq}
use bencchat.Prelude.Assoc.{lookup, insert}
use bencchat.Text.Ascii.{bytes}
use bencchat.State.ScreenName.{has_name, normalize_screen_name}
use bencchat.State.Message.{
  new_store, Message, Conversation, Store, max_messages_per_conversation, Buddy, online,
}
use bencchat.State.Buddies.{carried, new_buddy_row, replace_buddy_list}
use bencchat.State.Buddies.Reload.{Reloaded, last_named, replace_buddy_list-Reloaded}
use bencchat.State.Conversations.{add_message}
use bencchat.State.Conversations.Arrival.{add_message-arrives, scrollback}
use bencchat.State.Conversations.Steps.{arrives, closes, settles, acts, IsTidy, Restorable}
use bencchat.State.Conversations.Tidy.{acts-IsTidy}
use bencchat.State.Rooms.{merge_messages}
use bencchat.State.Rooms.Keys.{has_key}
use bencchat.State.Rooms.Merging.{merge_messages-again}
use bencchat.State.Pending.{decrypt_pending, pending_ciphers}
use bencchat.State.Pending.Recovery.{Settles, decrypt_pending-Settles}

abbrev note : Bytes → ℕ → Message
note text at = record {
  sender = bytes "Bob B";
  recipient = bytes "ann";
  text = text;
  at = at;
  outgoing = false;
  cookie = 0;
  id = [];
  not_sent = false;
  auto_response = false;
  encrypted = false;
  sender_verified = false;
  signed = false;
  transferred = false;
  forged = false;
  envelope = [];
  cipher = [];
}

abbrev sealed : Message
sealed = record (note (bytes "?") 5) { cipher = bytes "x" }

abbrev thread : Conversation
thread = record {
  key = bytes "BobB";
  screen_name = bytes "Bob B";
  messages = note (bytes "hi") 4 ∷ sealed ∷ [];
  unread = 2;
  hidden = false;
}

abbrev store : Store
store = record new_store { conversations = (bytes "BobB", thread) ∷ [] }

abbrev same_case : Bytes → Bytes
same_case s = s

add_message-arrives_example :
    (c : Conversation) × (lookup
        (bytes "BobB")
        (add_message same_case (note (bytes "ho") 6) store).1.conversations
      ≡ some c)
    × (c.messages ≡ scrollback thread.messages ++ note (bytes "ho") 6 ∷ [])
    × (length c.messages ≤ max_messages_per_conversation)
    × (c.hidden ≡ false)
    × (c.unread ≡ 3)
    × (bytes_eq (bytes "BobB") (bytes "eve") ≡ false
        → lookup (bytes "eve") (add_message same_case (note (bytes "ho") 6) store).1.conversations
          ≡ lookup (bytes "eve") store.conversations)
unfolding add_message lookup normalize_screen_name bytes_eq
add_message-arrives_example =
    add_message-arrives same_case (note (bytes "ho") 6) store (bytes "eve")

empty_store-IsTidy : IsTidy new_store
unfolding IsTidy lookup
empty_store-IsTidy k c found = absurd (ground (arith, found))

acts-IsTidy_example : IsTidy (
    acts same_case
      (arrives (note (bytes "hi") 4) ∷ closes (bytes "Bob B") ∷ settles (bytes "BobB") [] ∷ [])
      new_store)
unfolding Restorable
acts-IsTidy_example =
    acts-IsTidy same_case
      (arrives (note (bytes "hi") 4) ∷ closes (bytes "Bob B") ∷ settles (bytes "BobB") [] ∷ [])
      new_store (tt, (tt, (tt, tt))) empty_store-IsTidy

-- A clock of whole numbers, in place of a rendered time.
abbrev tick : ℕ → Bytes
tick n = n ∷ []

abbrev later : List Message
later = note (bytes "hi") 4 ∷ note (bytes "ho") 2 ∷ []

merge_messages-again_example :
    let after = (merge_messages tick (note (bytes "hi") 4 ∷ []) later).1 in
    ((k : Bytes)
      → has_key tick k after ≡ (has_key tick k (note (bytes "hi") 4 ∷ []) || has_key tick k later))
    × (merge_messages tick after later ≡ (0, after))
unfolding has_name bytes_eq
merge_messages-again_example =
    merge_messages-again tick (note (bytes "hi") 4 ∷ []) later
      (unfold merge_messages in omega arith)

abbrev opens_x : Bytes → Option Bytes
opens_x c = some (bytes "hey")

decrypt_pending-Settles_example :
    (after : Conversation) × (lookup
        (bytes "BobB")
        (decrypt_pending same_case (bytes "Bob B") opens_x (λ s. s) store).1.conversations
      ≡ some after)
    × Settles opens_x thread.messages after.messages
unfolding lookup bytes_eq normalize_screen_name
decrypt_pending-Settles_example =
    decrypt_pending-Settles same_case (bytes "Bob B") opens_x (λ s. s) store thread thread refl refl
      (unfold pending_ciphers in refl)

abbrev bob_row : Buddy
bob_row = record (new_buddy_row (bytes "Bob B") (bytes "BobB")) {
  presence = online;
  profile = bytes "hi there";
  e2ee_capable = true;
  caps_known = true;
}

-- Bob is online; the reloaded list has him in a group, and nothing else of him.
abbrev bob_listed : Buddy
bob_listed = record (new_buddy_row (bytes "BobB") []) { group = bytes "Friends" }

abbrev bob_kept : Buddy
bob_kept = record bob_row {
  screen_name = bytes "BobB";
  group = bytes "Friends";
  e2ee_capable = false;
  caps_known = false;
}

replace_buddy_list-Reloaded_example :
    let known = record new_store { buddies = (bytes "BobB", bob_row) ∷ [] } in
    Reloaded
      (bytes "BobB")
      (lookup (bytes "BobB") known.buddies)
      (last_named same_case (bytes "BobB") (bob_listed ∷ []))
      (lookup (bytes "BobB") (replace_buddy_list same_case (bob_listed ∷ []) [] known).buddies)
replace_buddy_list-Reloaded_example =
    replace_buddy_list-Reloaded same_case (bob_listed ∷ []) []
      (record new_store { buddies = (bytes "BobB", bob_row) ∷ [] }) (bytes "BobB")

-- The capability that was learned is gone after the reload.
bob_kept_there :
    lookup
      (bytes "BobB")
      (replace_buddy_list same_case
        (bob_listed ∷ [])
        []
        (record new_store { buddies = (bytes "BobB", bob_row) ∷ [] })).buddies
    ≡ some bob_kept
unfolding replace_buddy_list lookup insert bytes_eq normalize_screen_name carried new_buddy_row
bob_kept_there = refl
