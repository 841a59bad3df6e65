-- ===== src/State/Rooms/Merging.antt =====
-- internal/state/state.go: recovered history folded into a room.
use bencchat.State.Rooms.Keys.{
  has_key, has_key-sort_by_time, has_key-append, has_key-unseen, IsDistinct,
  sort_by_time-IsDistinct, append-IsDistinct, drop-IsDistinct,
}
use bencchat.State.Rooms.TimeOrder.{InOrder, sort_by_time-InOrder, newest-sorted}
use bencchat.State.Rooms.{
  merge_messages, room_msg_key, insert_by_time, sort_by_time, unseen, msg_keys,
}
use bencchat.Prelude.{
  ◌-◌, ℕ, ◌+◌, ◌≤◌, ◌<◌, true, false, ◌||◌, List, [], ◌∷◌, ◌++◌, ltb, length, length-append, ◌≡◌,
  refl, arith, Bool-cases, inl, inr,
}
use bencchat.Prelude.Bytes.{Bytes, bytes_eq_iff}
use bencchat.State.ScreenName.{has_name}
use bencchat.State.Message.{Message, max_messages_per_conversation, newest}
use bencchat.State.Conversations.Arrival.{newest_short}

module _ (format : ℕ → Bytes) where
  newest-keeps : (ms : List Message) → IsDistinct format ms → IsDistinct format (newest ms)
  unfolding newest
  newest-keeps ms apart = elim (Bool-cases (ltb max_messages_per_conversation (length ms))) [
    | inl over ↦
        rw over (drop-IsDistinct format (length ms - max_messages_per_conversation) ms apart)
    | inr fits ↦ rw fits apart
  ]

  length-insert_by_time :
      (m : Message) (ms : List Message) → length (insert_by_time m ms) ≡ length ms + 1
  unfolding insert_by_time
  length-insert_by_time m [] = refl
  length-insert_by_time m (n ∷ ns) = ground (arith, length-insert_by_time m ns)

  length-sort_by_time : (ms : List Message) → length (sort_by_time ms) ≡ length ms
  unfolding sort_by_time
  length-sort_by_time [] = refl
  length-sort_by_time (m ∷ ms) =
      omega (arith, length-insert_by_time m (sort_by_time ms), length-sort_by_time ms)

  unseen-none :
      (have : List Bytes) (ms : List Message)
      → ((k : Bytes) → has_key format k ms ≡ true → has_name k have ≡ true)
      → unseen format have ms ≡ []
  unfolding unseen has_name msg_keys
  unseen-none have [] covered = refl
  unseen-none have (m ∷ ms) covered =
      let key = room_msg_key format m in
      rw (unseen, covered key (ground (arith, bytes_eq_iff key key)))
        (unseen-none have ms (λ k here. covered k (ground (arith, here))))

  no_keys :
      (ms : List Message) (k : Bytes) → ltb 0 (length ms) ≡ false → has_key format k ms ≡ false
  unfolding has_name msg_keys
  no_keys [] k h = refl
  no_keys (m ∷ ms) k h = absurd (ground (arith, h))

  merged_keys :
      (held msgs : List Message)
      → length held + (merge_messages format held msgs).0 ≤ max_messages_per_conversation
      → (k : Bytes)
      → has_key format k (merge_messages format held msgs).1
        ≡ (has_key format k held || has_key format k msgs)
  unfolding merge_messages newest
  merged_keys held msgs short k =
      let new = unseen format (msg_keys format held) msgs in
      ground (
        arith,
        short,
        length-append held new,
        length-sort_by_time (held ++ new),
        has_key-sort_by_time format k (held ++ new),
        has_key-append format k held new,
        has_key-unseen format k (msg_keys format held) msgs,
        no_keys new k,
      )

  -- While the room stays within 1000 messages, a merge loses nothing and adds nothing that was not
  -- merged, and merging the same messages again finds none new and changes nothing.
  pub merge_messages-again :
      (held msgs : List Message)
      → length held + (merge_messages format held msgs).0 ≤ max_messages_per_conversation
      → let after = (merge_messages format held msgs).1 in
        ((k : Bytes) → has_key format k after ≡ (has_key format k held || has_key format k msgs))
        × (merge_messages format after msgs ≡ (0, after))
  merge_messages-again held msgs short =
      let keys = merged_keys held msgs short in
      let none_new =
        unseen-none (msg_keys format (merge_messages format held msgs).1) msgs
          (λ k here. ground (arith, keys k, here)) in
      (keys, (unfold merge_messages in rw none_new refl))

  -- A merge into messages of distinct keys leaves messages of distinct keys, at most 1000 of them if
  -- there were no more before, and in the order of their times if any was new.
  pub merge_messages-merges :
      (held msgs : List Message)
      → IsDistinct format held
      → length held ≤ max_messages_per_conversation
      → let (added, after) = merge_messages format held msgs in
        IsDistinct format after
        × (length after ≤ max_messages_per_conversation)
        × (0 < added → InOrder after)
  unfolding merge_messages newest
  merge_messages-merges held msgs distinct short =
      let new = unseen format (msg_keys format held) msgs in
      let all = sort_by_time (held ++ new) in
      let apart =
        sort_by_time-IsDistinct format (held ++ new)
          (append-IsDistinct format (msg_keys format held) held msgs distinct (λ k here. here)) in
      elim (Bool-cases (ltb 0 (length new))) [
        | inr none_new ↦
            rw none_new (distinct, short, λ some_new. absurd (ground (arith, none_new, some_new)))
        | inl some_new ↦ rw some_new (
          newest-keeps all apart,
          newest_short all,
          λ h. newest-sorted all (sort_by_time-InOrder (held ++ new)),
        )
      ]
