-- ===== src/State/Rooms/Keys.antt =====
-- internal/state/state.go, roomMsgKey: which keys are had after a merge, and that none is twice.
use bencchat.State.Rooms.{room_msg_key, insert_by_time, sort_by_time, unseen, msg_keys}
use bencchat.Prelude.{
  ◌∙◌, zero, suc, drop, ℕ, Bool, true, false, ◌||◌, List, [], ◌∷◌, ◌++◌, ltb, ◌≡◌, refl, arith,
  Bool-cases, inl, inr,
}
use bencchat.Prelude.Bytes.{Bytes, bytes_eq, bytes_eq_iff}
use bencchat.State.ScreenName.{has_name}
use bencchat.State.Message.{Message}

module _ (format : ℕ → Bytes) where
  -- A message with this key is in a list.
  abbrev pub has_key : Bytes → List Message → Bool
  has_key k ms = has_name k (msg_keys format ms)

  pub has_key-insert_by_time :
      (k : Bytes) (m : Message) (ms : List Message)
      → has_key k (insert_by_time m ms) ≡ (bytes_eq (room_msg_key format m) k || has_key k ms)
  unfolding has_name msg_keys insert_by_time
  has_key-insert_by_time k m [] = ground arith
  has_key-insert_by_time k m (n ∷ ns) = ground (arith, has_key-insert_by_time k m ns)

  pub has_key-sort_by_time :
      (k : Bytes) (ms : List Message) → has_key k (sort_by_time ms) ≡ has_key k ms
  unfolding has_name msg_keys sort_by_time
  has_key-sort_by_time k [] = refl
  has_key-sort_by_time k (m ∷ ms) =
      ground (arith, has_key-sort_by_time k ms, has_key-insert_by_time k m (sort_by_time ms))

  pub has_key-append :
      (k : Bytes) (ms ns : List Message) → has_key k (ms ++ ns) ≡ (has_key k ms || has_key k ns)
  unfolding has_name msg_keys
  has_key-append k [] ns = refl
  has_key-append k (m ∷ ms) ns = ground (arith, has_key-append k ms ns)

  -- Every key of what is merged is had afterwards, or was had before.
  pub has_key-unseen :
      (k : Bytes) (have : List Bytes) (ms : List Message)
      → (has_name k have || has_key k (unseen format have ms)) ≡ (has_name k have || has_key k ms)
  unfolding has_name msg_keys unseen
  has_key-unseen k have [] = refl
  has_key-unseen k have (m ∷ ms) = ground (
    arith,
    has_key-unseen k have ms,
    has_key-unseen k (room_msg_key format m ∷ have) ms,
    bytes_eq_iff (room_msg_key format m) k,
  )

  pub unseen-had :
      (k : Bytes) (have : List Bytes) (ms : List Message)
      → has_name k have ≡ true
      → has_key k (unseen format have ms) ≡ false
  unfolding has_name msg_keys unseen
  unseen-had k have [] had = refl
  unseen-had k have (m ∷ ms) had = ground (
    arith,
    had,
    unseen-had k have ms,
    unseen-had k (room_msg_key format m ∷ have) ms,
    bytes_eq_iff (room_msg_key format m) k,
  )

  -- No two messages have one key.
  unfoldable pub IsDistinct : List Message → Type 0
  IsDistinct [] = Unit
  IsDistinct (m ∷ ms) = (has_key (room_msg_key format m) ms ≡ false) × IsDistinct ms

  pub unseen-IsDistinct :
      (have : List Bytes) (ms : List Message) → IsDistinct (unseen format have ms)
  unfolding IsDistinct unseen has_name
  unseen-IsDistinct have [] = tt
  unseen-IsDistinct have (m ∷ ms) =
      let key = room_msg_key format m in
      elim (Bool-cases (has_name key have)) [
        | inl had ↦ rw (unseen, had) (unseen-IsDistinct have ms)
        | inr new ↦
            rw (unseen, new)
              (
                unseen-had key (key ∷ have) ms (ground (arith, bytes_eq_iff key key)),
                unseen-IsDistinct (key ∷ have) ms,
              )
      ]

  pub insert_by_time-IsDistinct :
      (m : Message) (ms : List Message)
      → has_key (room_msg_key format m) ms ≡ false
      → IsDistinct ms
      → IsDistinct (insert_by_time m ms)
  unfolding IsDistinct insert_by_time has_name msg_keys
  insert_by_time-IsDistinct m [] new distinct = (new, distinct)
  insert_by_time-IsDistinct m (n ∷ ns) new distinct = elim (Bool-cases (ltb n.at m.at)) [
    | inl later ↦
        rw (insert_by_time, later)
          (
            ground (
              arith,
              new,
              distinct,
              has_key-insert_by_time (room_msg_key format n) m ns,
              bytes_eq_iff (room_msg_key format m) (room_msg_key format n),
              bytes_eq_iff (room_msg_key format n) (room_msg_key format m),
            ),
            insert_by_time-IsDistinct m ns (ground (arith, new)) distinct.1,
          )
    | inr first ↦ rw (insert_by_time, first) (new, distinct)
  ]

  pub sort_by_time-IsDistinct : (ms : List Message) → IsDistinct ms → IsDistinct (sort_by_time ms)
  unfolding IsDistinct sort_by_time
  sort_by_time-IsDistinct [] distinct = distinct
  sort_by_time-IsDistinct (m ∷ ms) distinct =
      insert_by_time-IsDistinct m (sort_by_time ms)
        (has_key-sort_by_time (room_msg_key format m) ms ∙ distinct.0)
        (sort_by_time-IsDistinct ms distinct.1)

  pub append-IsDistinct :
      (have : List Bytes) (ms ns : List Message)
      → IsDistinct ms
      → ((k : Bytes) → has_key k ms ≡ true → has_name k have ≡ true)
      → IsDistinct (ms ++ unseen format have ns)
  unfolding IsDistinct has_name msg_keys
  append-IsDistinct have [] ns distinct covered = unseen-IsDistinct have ns
  append-IsDistinct have (m ∷ ms) ns distinct covered =
      let key = room_msg_key format m in
      (
        ground (
          arith,
          distinct,
          has_key-append key ms (unseen format have ns),
          unseen-had key have ns,
          covered key,
          bytes_eq_iff key key,
        ),
        append-IsDistinct have ms ns distinct.1 (λ k here. covered k (ground (arith, here))),
      )

  pub drop-IsDistinct : (n : ℕ) (ms : List Message) → IsDistinct ms → IsDistinct (drop n ms)
  unfolding IsDistinct
  drop-IsDistinct zero ms distinct = distinct
  drop-IsDistinct (suc n) [] distinct = distinct
  drop-IsDistinct (suc n) (m ∷ ms) distinct = drop-IsDistinct n ms distinct.1
