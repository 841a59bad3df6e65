-- ===== src/State/Rooms/TimeOrder.antt =====
-- internal/state/state.go: the messages of a merged room are in the order of their times.
use bencchat.State.Rooms.{insert_by_time, sort_by_time}
use bencchat.Prelude.{
  All, zero, suc, drop, ◌-◌, ℕ, ◌≤◌, List, [], ◌∷◌, ltb, length, arith, Bool-cases, inl, inr,
}
use bencchat.State.Message.{Message, max_messages_per_conversation, newest}

-- Each message is at or before all later ones.
unfoldable pub InOrder : List Message → Type 0
InOrder [] = Unit
InOrder (m ∷ ms) = All (λ n. m.at ≤ n.at) ms × InOrder ms

pub insert_by_time-All :
    (t : ℕ) (m : Message) (ms : List Message)
    → t ≤ m.at
    → All (λ n. t ≤ n.at) ms
    → All (λ n. t ≤ n.at) (insert_by_time m ms)
unfolding insert_by_time
insert_by_time-All t m [] h all = (h, tt)
insert_by_time-All t m (n ∷ ns) h all = elim (Bool-cases (ltb n.at m.at)) [
  | inl later ↦ rw (insert_by_time, later) (all.0, insert_by_time-All t m ns h all.1)
  | inr first ↦ rw (insert_by_time, first) (h, all)
]

pub All-weaken :
    (t u : ℕ) (ms : List Message) → t ≤ u → All (λ n. u ≤ n.at) ms → All (λ n. t ≤ n.at) ms
All-weaken t u [] h all = tt
All-weaken t u (m ∷ ms) h all = (omega (arith, all.0), All-weaken t u ms h all.1)

pub insert_by_time-InOrder :
    (m : Message) (ms : List Message) → InOrder ms → InOrder (insert_by_time m ms)
unfolding InOrder insert_by_time
insert_by_time-InOrder m [] sorted = (tt, tt)
insert_by_time-InOrder m (n ∷ ns) sorted = elim (Bool-cases (ltb n.at m.at)) [
  | inl later ↦
      rw (insert_by_time, later)
        (
          insert_by_time-All n.at m ns (ground (arith, later)) sorted.0,
          insert_by_time-InOrder m ns sorted.1,
        )
  | inr first ↦
      let below : m.at ≤ n.at = ground (arith, first) in
      rw (insert_by_time, first) ((below, All-weaken m.at n.at ns below sorted.0), sorted)
]

pub sort_by_time-InOrder : (ms : List Message) → InOrder (sort_by_time ms)
unfolding InOrder sort_by_time
sort_by_time-InOrder [] = tt
sort_by_time-InOrder (m ∷ ms) = insert_by_time-InOrder m (sort_by_time ms) (sort_by_time-InOrder ms)

pub drop-InOrder : (n : ℕ) (ms : List Message) → InOrder ms → InOrder (drop n ms)
unfolding InOrder
drop-InOrder zero ms sorted = sorted
drop-InOrder (suc n) [] sorted = sorted
drop-InOrder (suc n) (m ∷ ms) sorted = drop-InOrder n ms sorted.1

pub newest-sorted : (ms : List Message) → InOrder ms → InOrder (newest ms)
unfolding newest
newest-sorted ms sorted = elim (Bool-cases (ltb max_messages_per_conversation (length ms))) [
  | inl over ↦ rw over (drop-InOrder (length ms - max_messages_per_conversation) ms sorted)
  | inr fits ↦ rw fits sorted
]
