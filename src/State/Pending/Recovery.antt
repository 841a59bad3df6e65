-- ===== src/State/Pending/Recovery.antt =====
-- internal/state/state.go: what a late decryption does to a thread that may have changed meanwhile.
use bencchat.State.Pending.{
  pending_ciphers, recovered, settle_thread, decrypt_pending, settle, recover,
}
use bencchat.Prelude.{
  subst, sym, true, false, List, [], ◌∷◌, ◌==◌, if◌then◌else◌, length, Option, none, some, ◌≡◌,
  arith, Bool-cases, inl, inr,
}
use bencchat.Prelude.Bytes.{Bytes, bytes_eq_iff}
use bencchat.Prelude.Outcome.{Option-cases}
use bencchat.Prelude.Assoc.{lookup, insert, lookup-insert}
use bencchat.State.ScreenName.{normalize_screen_name, has_name}
use bencchat.State.Message.{Message, Conversation, Store, emit}

-- A message that was read after it came.
abbrev pub read_late : Bytes → Message → Message
read_late plain m = record m { text = plain; encrypted = true; cipher = [] }

-- One list of messages after a late decryption of another: each message stays as it is, or is read,
-- or, where it decrypts to the empty text of protocol traffic, goes.
pub data Settles (decrypt : Bytes → Option Bytes) : List Message → List Message → Type 0 where
  done : Settles decrypt [] []
  stays :
      {m : Message} {ms ns : List Message}
      → Settles decrypt ms ns
      → Settles decrypt (m ∷ ms) (m ∷ ns)
  reads :
      {m : Message} {plain : Bytes} {ms ns : List Message}
      → decrypt m.cipher ≡ some plain
      → (length m.cipher == 0) ≡ false
      → (length plain == 0) ≡ false
      → Settles decrypt ms ns
      → Settles decrypt (m ∷ ms) (read_late plain m ∷ ns)
  goes :
      {m : Message} {plain : Bytes} {ms ns : List Message}
      → decrypt m.cipher ≡ some plain
      → (length m.cipher == 0) ≡ false
      → (length plain == 0) ≡ true
      → Settles decrypt ms ns
      → Settles decrypt (m ∷ ms) ns

-- What a pass recovers: the plaintexts of the ciphertexts that decrypt.
lookup-recover :
    (decrypt : Bytes → Option Bytes) (cs : List Bytes) (opened : List (Bytes × Bytes)) (x : Bytes)
    → lookup x (recover decrypt cs opened) ≡ (elim (decrypt x) [
      | none ↦ lookup x opened
      | some plain ↦ if has_name x cs then some plain else lookup x opened
    ])
unfolding recover has_name
lookup-recover decrypt [] opened x = elim (Option-cases (decrypt x)) [
  | inl sealed ↦ ground (arith, sealed)
  | inr (plain, opens) ↦ ground (arith, opens)
]
lookup-recover decrypt (c ∷ cs) opened x = elim (Option-cases (decrypt c)) [
  | inl sealed ↦ ground (arith, sealed, lookup-recover decrypt cs opened x, bytes_eq_iff c x)
  | inr (plain, opens) ↦ ground (
    arith,
    opens,
    lookup-recover decrypt cs (insert c plain opened) x,
    lookup-insert c x plain opened,
    bytes_eq_iff c x,
  )
]

module _ (decrypt : Bytes → Option Bytes) (opened : List (Bytes × Bytes)) where
  settle-Settles :
      (ms : List Message)
      → ((x p : Bytes) → lookup x opened ≡ some p → decrypt x ≡ some p)
      → Settles decrypt ms (settle opened ms).1
  unfolding settle recovered
  settle-Settles [] sound = done
  settle-Settles (m ∷ ms) sound =
      let rest = settle-Settles ms sound in
      let left = (settle opened ms).1 in
      let whole : (ns : List Message)
          → (settle opened (m ∷ ms)).1 ≡ ns
          → Settles decrypt (m ∷ ms) ns
          → Settles decrypt (m ∷ ms) (settle opened (m ∷ ms)).1 =
        λ ns e r. subst (λ ks. Settles decrypt (m ∷ ms) ks) (sym e) r in
      elim (Bool-cases (length m.cipher == 0)) [
        | inl plaintext ↦ whole (m ∷ left) (ground (arith, plaintext)) (stays rest)
        | inr sealed ↦ elim (Option-cases (lookup m.cipher opened)) [
          | inl unknown ↦ whole (m ∷ left) (ground (arith, sealed, unknown)) (stays rest)
          | inr (plain, found) ↦ elim (Bool-cases (length plain == 0)) [
            | inl empty ↦
                whole left (ground (arith, sealed, found, empty))
                  (goes (sound m.cipher plain found) sealed empty rest)
            | inr some_text ↦
                whole (read_late plain m ∷ left) (ground (arith, sealed, found, some_text))
                  (reads (sound m.cipher plain found) sealed some_text rest)
          ]
        ]
      ]

-- What a pass recovers is what decryption gives.
recover_sound :
    (decrypt : Bytes → Option Bytes) (cs : List Bytes) (x p : Bytes)
    → lookup x (recover decrypt cs []) ≡ some p
    → decrypt x ≡ some p
unfolding lookup
recover_sound decrypt cs x p found = elim (Option-cases (decrypt x)) [
  | inl sealed ↦ absurd (ground (arith, found, sealed, lookup-recover decrypt cs [] x))
  | inr (plain, opens) ↦ ground (arith, found, opens, lookup-recover decrypt cs [] x)
]

stays_all : (decrypt : Bytes → Option Bytes) (ms : List Message) → Settles decrypt ms ms
stays_all decrypt [] = done
stays_all decrypt (m ∷ ms) = stays (stays_all decrypt ms)

-- Whatever happens to a thread while a late decryption has the lock released, what is written then
-- only reads messages that decrypt, or takes them away as protocol traffic, and it keeps all others
-- in their order: no message that came meanwhile is lost.
pub decrypt_pending-Settles :
    (to_lower : Bytes → Bytes) (screen_name : Bytes) (decrypt : Bytes → Option Bytes)
    (between : Store → Store) (s : Store) (before meanwhile : Conversation)
    → let key = normalize_screen_name to_lower screen_name in
      lookup key s.conversations ≡ some before
      → lookup key (between s).conversations ≡ some meanwhile
      → (length (pending_ciphers before.messages) == 0) ≡ false
      → (after : Conversation) × (lookup key
            (decrypt_pending to_lower screen_name decrypt between s).1.conversations
          ≡ some after)
        × Settles decrypt meanwhile.messages after.messages
unfolding decrypt_pending settle_thread emit
decrypt_pending-Settles to_lower screen_name decrypt between s before meanwhile there here waiting =
    let key = normalize_screen_name to_lower screen_name in
    let opened = recover decrypt (pending_ciphers before.messages) [] in
    let settled = record meanwhile { messages = (settle opened meanwhile.messages).1 } in
    elim (Bool-cases (length opened == 0)) [
      | inl nothing ↦ (
        meanwhile,
        ground (arith, there, here, waiting, nothing),
        stays_all decrypt meanwhile.messages,
      )
      | inr something ↦ (
        settled,
        ground (
          arith,
          there,
          here,
          waiting,
          something,
          lookup-insert key key settled (between s).conversations,
          bytes_eq_iff key key,
        ),
        settle-Settles decrypt opened meanwhile.messages
            (recover_sound decrypt (pending_ciphers before.messages)),
      )
    ]
