-- ===== src/State/Pending.antt =====
-- internal/state/state.go: what is read, or checked, later than it came. The calls to the client run
-- with the lock released, so the store may change between the reading and the writing.
pub mod Recovery
use bencchat.Prelude.{
  ℕ, Bool, true, false, ◌&&◌, ◌||◌, not, List, [], ◌∷◌, ◌++◌, ◌==◌, if◌then◌else◌, length, Option,
  none, some,
}
use bencchat.Prelude.Bytes.{Bytes, bytes_eq}
use bencchat.Prelude.Assoc.{lookup, insert}
use bencchat.State.ScreenName.{normalize_screen_name}
use bencchat.State.Message.{
  same_flag, Message, Conversation, ChatRoom, Event, conversations_changed, room_event, Store, emit,
}

unfoldable pub pending_ciphers : List Message → List Bytes
pending_ciphers [] = []
pending_ciphers (m ∷ ms) =
    let rest = pending_ciphers ms in if length m.cipher == 0 then rest else m.cipher ∷ rest

-- The plaintexts that a pass recovers, by ciphertext.
unfoldable pub recover :
    (Bytes → Option Bytes) → List Bytes → List (Bytes × Bytes) → List (Bytes × Bytes)
recover decrypt [] opened = opened
recover decrypt (c ∷ cs) opened =
    recover decrypt cs (elim (decrypt c) [ none ↦ opened | some plain ↦ insert c plain opened ])

unfoldable pub recovered : List (Bytes × Bytes) → Message → Option Bytes
recovered opened m = if length m.cipher == 0 then none else lookup m.cipher opened

-- Whether anything changed, and the messages that stay.
unfoldable pub settle : List (Bytes × Bytes) → List Message → Bool × List Message
unfolding recovered
settle opened [] = (false, [])
settle opened (m ∷ ms) =
    let rest = settle opened ms in
    elim (recovered opened m) [
      | none ↦ (rest.0, m ∷ rest.1)
      | some plain ↦
          if length plain == 0
          then (true, rest.1)
          else (true, record m { text = plain; encrypted = true; cipher = [] } ∷ rest.1)
    ]

unfoldable pub settle_thread : Bytes → List (Bytes × Bytes) → Store → Bool × Store
unfolding settle emit
settle_thread key opened s = elim (lookup key s.conversations) [
  | none ↦ (false, s)
  | some c ↦
      let settled = settle opened c.messages in
      let kept = record s {
        conversations = insert key (record c { messages = settled.1 }) s.conversations;
      } in
      (settled.0, if settled.0 then emit conversations_changed kept else kept)
]

-- `between` is what the others do to the store while the lock is released.
unfoldable pub decrypt_pending :
    (Bytes → Bytes) → Bytes → (Bytes → Option Bytes) → (Store → Store) → Store → Bool × Store
unfolding pending_ciphers recover settle_thread
decrypt_pending to_lower screen_name decrypt between s =
    let key = normalize_screen_name to_lower screen_name in
    elim (lookup key s.conversations) [
      | none ↦ (false, s)
      | some c ↦
          let todo = pending_ciphers c.messages in
          let opened = recover decrypt todo [] in
          if length todo == 0
          then (false, s)
          else if length opened == 0
          then (false, between s)
          else settle_thread key opened (between s)
    ]

-- What a check of a signature says.
pub record Verdict : Type 0 where
  pub verified : Bool
  pub forged : Bool

unfoldable pub unresolved : (Bytes → Bytes) → Bytes → Message → Bool
unresolved to_lower want m =
    not (length m.envelope == 0 || m.sender_verified || m.forged)
    && bytes_eq (normalize_screen_name to_lower m.sender) want

unfoldable pub to_recheck : (Bytes → Bytes) → Bytes → Bytes → List Message → List (Bytes × Bytes)
unfolding unresolved
to_recheck to_lower want cookie [] = []
to_recheck to_lower want cookie (m ∷ ms) =
    let rest = to_recheck to_lower want cookie ms in
    if unresolved to_lower want m then (cookie, m.envelope) ∷ rest else rest

unfoldable pub all_to_recheck :
    (Bytes → Bytes) → Bytes → List (Bytes × ChatRoom) → List (Bytes × Bytes)
unfolding to_recheck
all_to_recheck to_lower want [] = []
all_to_recheck to_lower want ((cookie, r) ∷ rs) =
    to_recheck to_lower want cookie r.messages ++ all_to_recheck to_lower want rs

-- The verdicts, by envelope. `check` answers nothing where the signature cannot be evaluated.
unfoldable pub verdicts :
    (Bytes → Bytes → Option Verdict)
    → List (Bytes × Bytes)
    → List (Bytes × Verdict)
    → List (Bytes × Verdict)
verdicts check [] results = results
verdicts check ((cookie, envelope) ∷ todo) results =
    verdicts check todo (elim (check cookie envelope) [
      | none ↦ results
      | some v ↦ if v.verified || v.forged then insert envelope v results else results
    ])

unfoldable pub reverified : List (Bytes × Verdict) → Message → Message
reverified results m = if length m.envelope == 0 then m else elim (lookup m.envelope results) [
  | none ↦ m
  | some v ↦ record m { sender_verified = v.verified; forged = v.forged }
]

unfoldable pub is_touched : Message → Message → Bool
unfolding same_flag
is_touched m n = not (same_flag m.sender_verified n.sender_verified && same_flag m.forged n.forged)

unfoldable pub reverify_all : List (Bytes × Verdict) → List Message → Bool × List Message
unfolding reverified is_touched
reverify_all results [] = (false, [])
reverify_all results (m ∷ ms) =
    let rest = reverify_all results ms in
    let next = reverified results m in (is_touched m next || rest.0, next ∷ rest.1)

-- The rooms that were touched, and all rooms.
unfoldable pub reverify_rooms :
    List (Bytes × Verdict) → List (Bytes × ChatRoom) → List Bytes × List (Bytes × ChatRoom)
unfolding reverify_all
reverify_rooms results [] = ([], [])
reverify_rooms results ((cookie, r) ∷ rs) =
    let rest = reverify_rooms results rs in
    let done = reverify_all results r.messages in
    (if done.0 then cookie ∷ rest.0 else rest.0, (cookie, record r { messages = done.1 }) ∷ rest.1)

unfoldable pub emit_rooms : List Bytes → Store → Store
unfolding emit
emit_rooms [] s = s
emit_rooms (cookie ∷ cookies) s = emit_rooms cookies (emit (room_event cookie) s)

unfoldable pub reverify_room_messages :
    (Bytes → Bytes)
    → Bytes
    → (Bytes → Bytes → Option Verdict)
    → (Store → Store)
    → Store
    → Bool × Store
unfolding all_to_recheck verdicts reverify_rooms emit_rooms
reverify_room_messages to_lower screen_name check between s =
    let want = normalize_screen_name to_lower screen_name in
    let todo = all_to_recheck to_lower want s.rooms in
    let results = verdicts check todo [] in
    if length todo == 0
    then (false, s)
    else if length results == 0
    then (false, between s)
    else let done = reverify_rooms results (between s).rooms in
      (not (length done.0 == 0), emit_rooms done.0 (record (between s) { rooms = done.1 }))
