-- ===== src/State/Conversations/Tidy.antt =====
-- internal/state/state.go: over any history of its threads, a store keeps each of them short, and a
-- closed one has nothing unread.
use bencchat.State.Conversations.{
  clear_conversations, restore_conversations, reopen_conversation, clear_conversation,
  close_conversation, mark_read, take_message, set_message_not_sent, add_message, flag_last,
  take_first, key_of, grown, thread_of, other_party, new_thread,
}
use bencchat.Prelude.{
  ℕ, ◌≤◌, Bool, true, false, List, [], ◌∷◌, ◌++◌, ◌==◌, length, none, some, ◌≡◌, refl, arith,
  Bool-cases, inl, inr, All, ◌⊎◌,
}
use bencchat.Prelude.Bytes.{Bytes}
use bencchat.Prelude.Assoc.{lookup, insert}
use bencchat.State.Message.{Message, Conversation, Store, emit}
use bencchat.Prelude.Outcome.{Option-cases}
use bencchat.State.Conversations.Arrival.{newest_short}
use bencchat.State.Pending.{settle, settle_thread}
use bencchat.State.Conversations.Steps.{
  Step, arrives, fails, takes, reads, closes, clears, reopens, restores, wipes, settles, act, acts,
  IsTidyThread, IsTidy, Restorable, length-flag_last, length-take_first, length-settle,
  insert-AllTidy, nothing_held, delete_key-AllTidy, restored_threads-AllTidy, rewrite-AllTidy,
}

module _ (to_lower : Bytes → Bytes) (s : Store) (all : IsTidy s) where
  arrives-AllTidy : (m : Message) → IsTidy (act to_lower (arrives m) s)
  unfolding act add_message grown emit thread_of new_thread IsTidy IsTidyThread
  arrives-AllTidy m =
      let key = key_of to_lower (other_party m) in
      let c = thread_of key (other_party m) s in
      insert-AllTidy key (grown m c) s.conversations
        (newest_short (c.messages ++ m ∷ []), λ h. ground (arith, h)) all

  -- What a act does to the threads: nothing, or it writes one back.
  unfoldable Rewrites : Bytes → (Conversation → Conversation) → Store → Type 0
  Rewrites key f after =
      (after.conversations ≡ s.conversations)
      ⊎ ((c : Conversation) × (lookup key s.conversations ≡ some c)
          × (after.conversations ≡ insert key (f c) s.conversations))

  Rewrites-IsTidy :
      (key : Bytes) (f : Conversation → Conversation) (after : Store)
      → ((c : Conversation) → IsTidyThread c → IsTidyThread (f c))
      → Rewrites key f after
      → IsTidy after
  unfolding IsTidy Rewrites
  Rewrites-IsTidy key f after keeps (inl same) = rw same all
  Rewrites-IsTidy key f after keeps (inr (c, there, written)) =
      rw written (rewrite-AllTidy key s.conversations c (f c) there (keeps c) all)

  fails-Rewrites :
      (sn : Bytes) (cookie : ℕ) (b : Bool)
      → Rewrites
          (key_of to_lower sn)
          (λ c. record c { messages = (flag_last cookie b c.messages).1 })
          (act to_lower (fails sn cookie b) s)
  unfolding act set_message_not_sent emit Rewrites
  fails-Rewrites sn cookie b = elim (Option-cases (lookup (key_of to_lower sn) s.conversations)) [
    | inl absent ↦ inl (ground (arith, absent))
    | inr (c, there) ↦ elim (Bool-cases (flag_last cookie b c.messages).0) [
      | inl found ↦ inr (c, there, ground (arith, there, found))
      | inr nothing ↦ inl (ground (arith, there, nothing))
    ]
  ]

  left : Bytes → Conversation → Conversation
  left id c = record c {
    messages = elim (take_first id c.messages) [ none ↦ c.messages | some taken ↦ taken.1 ];
  }

  takes-Rewrites :
      (sn id : Bytes) → Rewrites (key_of to_lower sn) (left id) (act to_lower (takes sn id) s)
  unfolding act take_message emit Rewrites left
  takes-Rewrites sn id = elim (Option-cases (lookup (key_of to_lower sn) s.conversations)) [
    | inl absent ↦ inl (ground (arith, absent))
    | inr (c, there) ↦ elim (Bool-cases (length id == 0)) [
      | inl unnamed ↦ inl (ground (arith, there, unnamed))
      | inr named ↦ elim (Option-cases (take_first id c.messages)) [
        | inl nothing ↦ inl (ground (arith, there, named, nothing))
        | inr (taken, found) ↦ inr (c, there, ground (arith, there, named, found))
      ]
    ]
  ]

  length-left : (id : Bytes) (c : Conversation) → length (left id c).messages ≤ length c.messages
  unfolding left
  length-left id c = elim (Option-cases (take_first id c.messages)) [
    | inl nothing ↦ ground (arith, nothing)
    | inr (taken, found) ↦ ground (arith, found, length-take_first id c.messages taken found)
  ]

  left-IsTidy : (id : Bytes) (c : Conversation) → IsTidyThread c → IsTidyThread (left id c)
  unfolding IsTidyThread left
  left-IsTidy id c tidy = (omega (arith, length-left id c, tidy.0), tidy.1)

  reads-Rewrites :
      (sn : Bytes)
      → Rewrites (key_of to_lower sn) (λ c. record c { unread = 0 }) (act to_lower (reads sn) s)
  unfolding act mark_read emit Rewrites
  reads-Rewrites sn = elim (Option-cases (lookup (key_of to_lower sn) s.conversations)) [
    | inl absent ↦ inl (ground (arith, absent))
    | inr (c, there) ↦ elim (Bool-cases (c.unread == 0)) [
      | inl read ↦ inl (ground (arith, there, read))
      | inr unread ↦ inr (c, there, ground (arith, there, unread))
    ]
  ]

  closes-Rewrites :
      (sn : Bytes)
      → Rewrites
          (key_of to_lower sn)
          (λ c. record c { hidden = true; unread = 0 })
          (act to_lower (closes sn) s)
  unfolding act close_conversation emit Rewrites
  closes-Rewrites sn = elim (Option-cases (lookup (key_of to_lower sn) s.conversations)) [
    | inl absent ↦ inl (ground (arith, absent))
    | inr (c, there) ↦ inr (c, there, ground (arith, there))
  ]

  reopens-Rewrites :
      (sn : Bytes)
      → Rewrites
          (key_of to_lower sn)
          (λ c. record c { hidden = false })
          (act to_lower (reopens sn) s)
  unfolding act reopen_conversation emit Rewrites
  reopens-Rewrites sn = elim (Option-cases (lookup (key_of to_lower sn) s.conversations)) [
    | inl absent ↦ inl (ground (arith, absent))
    | inr (c, there) ↦ elim (Bool-cases c.hidden) [
      | inl hidden ↦ inr (c, there, ground (arith, there, hidden))
      | inr shown ↦ inl (ground (arith, there, shown))
    ]
  ]

  settles-Rewrites :
      (key : Bytes) (opened : List (Bytes × Bytes))
      → Rewrites key
          (λ c. record c { messages = (settle opened c.messages).1 })
          (act to_lower (settles key opened) s)
  unfolding act settle_thread emit Rewrites
  settles-Rewrites key opened = elim (Option-cases (lookup key s.conversations)) [
    | inl absent ↦ inl (ground (arith, absent))
    | inr (c, there) ↦ inr (c, there, ground (arith, there))
  ]

  act-IsTidy : (e : Step) → Restorable e → IsTidy (act to_lower e s)
  unfolding IsTidyThread Restorable
  act-IsTidy (arrives m) short = arrives-AllTidy m
  act-IsTidy (fails sn cookie b) short =
      Rewrites-IsTidy (key_of to_lower sn) _ _
        (λ c tidy. (omega (arith, length-flag_last cookie b c.messages, tidy.0), tidy.1))
        (fails-Rewrites sn cookie b)
  act-IsTidy (takes sn id) short =
      Rewrites-IsTidy (key_of to_lower sn) (left id) _ (left-IsTidy id) (takes-Rewrites sn id)
  act-IsTidy (reads sn) short =
      Rewrites-IsTidy (key_of to_lower sn) _ _ (λ c tidy. (tidy.0, λ h. refl)) (reads-Rewrites sn)
  act-IsTidy (closes sn) short =
      Rewrites-IsTidy (key_of to_lower sn) _ _ (λ c tidy. (tidy.0, λ h. refl)) (closes-Rewrites sn)
  act-IsTidy (clears sn) short =
      unfold act clear_conversation emit IsTidy in
      delete_key-AllTidy (key_of to_lower sn) s.conversations all
  act-IsTidy (reopens sn) short =
      Rewrites-IsTidy (key_of to_lower sn) _ _ (λ c tidy. (tidy.0, λ h. absurd (ground (arith, h))))
        (reopens-Rewrites sn)
  act-IsTidy (restores cs) short =
      unfold act restore_conversations emit IsTidy in
      restored_threads-AllTidy to_lower cs [] short nothing_held
  act-IsTidy wipes short = unfold act clear_conversations emit IsTidy in nothing_held
  act-IsTidy (settles key opened) short =
      Rewrites-IsTidy key _ _
        (λ c tidy. (omega (arith, length-settle opened c.messages, tidy.0), tidy.1))
        (settles-Rewrites key opened)

-- Over any history of messages, failures, closings, restorings and late decryptions, every thread
-- keeps at most 1000 messages, and a closed one has nothing unread, if what is restored is within
-- the cap.
pub acts-IsTidy :
    (to_lower : Bytes → Bytes) (es : List Step) (s : Store)
    → All Restorable es
    → IsTidy s
    → IsTidy (acts to_lower es s)
unfolding acts
acts-IsTidy to_lower [] s short tidy = tidy
acts-IsTidy to_lower (e ∷ es) s short tidy =
    acts-IsTidy to_lower es (act to_lower e s) short.1 (act-IsTidy to_lower s tidy e short.0)
