-- ===== src/State/Conversations/Steps.antt =====
-- internal/state/state.go: what is done to the threads of a store, step by step, and what a tidy one is.
use bencchat.State.Conversations.{
  clear_conversations, restore_conversations, reopen_conversation, clear_conversation,
  close_conversation, mark_read, take_message, set_message_not_sent, add_message, flag_last,
  take_first, restored_threads, restored_key,
}
use bencchat.Prelude.{
  ℕ, ◌≤◌, Bool, true, List, [], ◌∷◌, ◌==◌, if◌then◌else◌, length, none, some, ◌≡◌, refl, arith,
  Bool-cases, inl, inr, All, subst,
}
use bencchat.Prelude.Bytes.{Bytes, bytes_eq, bytes_eq_iff}
use bencchat.Prelude.Assoc.{lookup, insert, lookup-insert}
use bencchat.State.Message.{Message, Conversation, max_messages_per_conversation, Store, delete_key}
use bencchat.Prelude.Outcome.{Option-cases}
use bencchat.State.Pending.{settle, settle_thread}

-- What is done to the threads: each is one critical section. `settles` is the writing part of
-- DecryptPending.
pub data Step : Type 0 where
  arrives : Message → Step
  fails : Bytes → ℕ → Bool → Step
  takes : Bytes → Bytes → Step
  reads closes clears reopens : Bytes → Step
  restores : List Conversation → Step
  wipes : Step
  settles : Bytes → List (Bytes × Bytes) → Step

module _ (to_lower : Bytes → Bytes) where
  unfoldable pub act : Step → Store → Store
  unfolding add_message set_message_not_sent take_message mark_read close_conversation
      clear_conversation reopen_conversation restore_conversations clear_conversations settle_thread
  act (arrives m) s = (add_message to_lower m s).1
  act (fails screen_name cookie not_sent) s =
      (set_message_not_sent to_lower screen_name cookie not_sent s).1
  act (takes screen_name id) s = (take_message to_lower screen_name id s).1
  act (reads screen_name) s = mark_read to_lower screen_name s
  act (closes screen_name) s = close_conversation to_lower screen_name s
  act (clears screen_name) s = clear_conversation to_lower screen_name s
  act (reopens screen_name) s = reopen_conversation to_lower screen_name s
  act (restores cs) s = restore_conversations to_lower cs s
  act wipes s = clear_conversations s
  act (settles key opened) s = (settle_thread key opened s).1

  unfoldable pub acts : List Step → Store → Store
  unfolding act
  acts [] s = s
  acts (e ∷ es) s = acts es (act e s)

unfoldable pub IsTidyThread : Conversation → Type 0
IsTidyThread c =
    (length c.messages ≤ max_messages_per_conversation) × (c.hidden ≡ true → c.unread ≡ 0)

-- Every thread of a store is short, and has nothing unread if it is closed.
unfoldable pub IsTidy : Store → Type 0
IsTidy s = (k : Bytes) (c : Conversation) → lookup k s.conversations ≡ some c → IsTidyThread c

-- A saved thread that is within the cap. Nothing trims what is restored.
abbrev pub IsShort : Conversation → Type 0
IsShort c = length c.messages ≤ max_messages_per_conversation

-- What is restored is within the cap.
unfoldable pub Restorable : Step → Type 0
Restorable (arrives m) = Unit
Restorable (fails screen_name cookie not_sent) = Unit
Restorable (takes screen_name id) = Unit
Restorable (reads screen_name) = Unit
Restorable (closes screen_name) = Unit
Restorable (clears screen_name) = Unit
Restorable (reopens screen_name) = Unit
Restorable (restores cs) = All IsShort cs
Restorable wipes = Unit
Restorable (settles key opened) = Unit

pub length-flag_last :
    (cookie : ℕ) (not_sent : Bool) (ms : List Message)
    → length (flag_last cookie not_sent ms).1 ≡ length ms
unfolding flag_last
length-flag_last cookie not_sent [] = refl
length-flag_last cookie not_sent (m ∷ ms) = ground (arith, length-flag_last cookie not_sent ms)

pub length-take_first :
    (id : Bytes) (ms : List Message) (found : Message × List Message)
    → take_first id ms ≡ some found
    → length found.1 ≤ length ms
unfolding take_first
length-take_first id [] found h = absurd (ground (arith, h))
length-take_first id (m ∷ ms) found h = elim (Option-cases (take_first id ms)) [
  | inl nothing ↦ ground (arith, h, nothing)
  | inr (rest, there) ↦ ground (arith, h, there, length-take_first id ms rest there)
]

pub length-settle :
    (opened : List (Bytes × Bytes)) (ms : List Message) → length (settle opened ms).1 ≤ length ms
unfolding settle
length-settle opened [] = ground arith
length-settle opened (m ∷ ms) = ground (arith, length-settle opened ms)

-- The same of a map of threads.
abbrev pub AllTidy : List (Bytes × Conversation) → Type 0
AllTidy m = (k : Bytes) (c : Conversation) → lookup k m ≡ some c → IsTidyThread c

pub insert-AllTidy :
    (key : Bytes) (c : Conversation) (m : List (Bytes × Conversation))
    → IsTidyThread c
    → AllTidy m
    → AllTidy (insert key c m)
insert-AllTidy key c m tidy all k d found = elim (Bool-cases (bytes_eq key k)) [
  | inl same ↦
      let e : c ≡ d = ground (arith, lookup-insert key k c m, same, found) in
      subst IsTidyThread e tidy
  | inr other ↦ all k d (ground (arith, lookup-insert key k c m, other, found))
]

pub nothing_held : AllTidy []
unfolding lookup
nothing_held k c found = absurd (ground (arith, found))

lookup-delete_key :
    (j k : Bytes) (m : List (Bytes × Conversation))
    → lookup k (delete_key j m) ≡ (if bytes_eq j k then none else lookup k m)
unfolding lookup delete_key
lookup-delete_key j k [] = ground arith
lookup-delete_key j k ((i, c) ∷ m) =
    ground (arith, lookup-delete_key j k m, bytes_eq_iff i j, bytes_eq_iff i k, bytes_eq_iff j k)

pub delete_key-AllTidy :
    (j : Bytes) (m : List (Bytes × Conversation)) → AllTidy m → AllTidy (delete_key j m)
delete_key-AllTidy j m all k d found = all k d (ground (arith, lookup-delete_key j k m, found))

pub restored_threads-AllTidy :
    (to_lower : Bytes → Bytes) (cs : List Conversation) (held : List (Bytes × Conversation))
    → All IsShort cs
    → AllTidy held
    → AllTidy (restored_threads to_lower cs held)
unfolding restored_threads IsTidyThread
restored_threads-AllTidy to_lower [] held short all = all
restored_threads-AllTidy to_lower (c ∷ cs) held short all =
    let key = restored_key to_lower c in
    elim (Bool-cases (length key == 0)) [
      | inl empty ↦
          rw (restored_threads, empty) (restored_threads-AllTidy to_lower cs held short.1 all)
      | inr named ↦
          rw (restored_threads, named)
            (restored_threads-AllTidy to_lower cs
              (insert key (record c { key = key; unread = 0 }) held) short.1
              (insert-AllTidy key (record c { key = key; unread = 0 }) held (short.0, λ h. refl)
                all))
    ]

-- A thread that is written back, where there is one.
pub rewrite-AllTidy :
    (key : Bytes) (m : List (Bytes × Conversation)) (c d : Conversation)
    → lookup key m ≡ some c
    → (IsTidyThread c → IsTidyThread d)
    → AllTidy m
    → AllTidy (insert key d m)
rewrite-AllTidy key m c d there keeps all = insert-AllTidy key d m (keeps (all key c there)) all
