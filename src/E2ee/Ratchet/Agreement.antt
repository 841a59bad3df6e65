-- ===== src/E2ee/Ratchet/Agreement.antt =====
-- What the two ends of a chain derive: the sender by `next`, a reader by its view.
use bencchat.Prelude.{
  ℕ, zero, suc, ◌+◌, ◌-◌, ◌^◌, ◌≤◌, ◌<◌, ◌≡◌, refl, ◌⊎◌, inl, inr, arith, true, false, ltb,
  if◌then◌else◌,
}
use native.Mathlib.Nat.{zero-add, suc-add}
use native.Mathlib.Decide.{dec_lt}
use bencchat.Prelude.Bytes.{Bytes}
use bencchat.Prelude.Outcome.{ok, err}
use bencchat.E2ee.Ratchet.{
  Chain, ChainView, rewind, skip_too_large, max_chain_skip, view, derive_key, step, step_times,
  next, advance_chain, message_key, advance,
}

module _ (hmac : Bytes → Bytes → Bytes) where
  pub step_times-add :
      (m n : ℕ) (s : Bytes) → step_times hmac n (step_times hmac m s) ≡ step_times hmac (m + n) s
  unfolding step_times
  step_times-add zero n s = rw zero-add
  step_times-add (suc m) n s = rw suc-add (step_times-add m n (step hmac s))

  -- The chain after `n` calls of `next`.
  unfoldable pub after_sends : ℕ → Chain → Chain
  after_sends zero c = c
  after_sends (suc n) c = after_sends n (next hmac c).2

  after_sends_lem :
      (n : ℕ) (c : Chain)
      → c.index + n < 2 ^ 32
      → ((after_sends n c).index ≡ c.index + n)
        × ((after_sends n c).state ≡ step_times hmac n c.state)
        × ((after_sends n c).id ≡ c.id)
  unfolding after_sends step_times next
  after_sends_lem zero c h = (omega arith, refl, refl)
  after_sends_lem (suc n) c h =
      let c' : Chain = (next hmac c).2 in
      let fits : c'.index ≡ c.index + 1 = omega arith in
      let (i, s, d) = after_sends_lem n c' (omega arith) in (omega arith, s, d)

  -- One more call.
  pub after_sends-suc :
      (n : ℕ) (c : Chain) → after_sends (suc n) c ≡ (next hmac (after_sends n c)).2
  unfolding after_sends
  after_sends-suc zero c = refl
  after_sends-suc (suc n) c = after_sends-suc n (next hmac c).2

  pub after_sends-id : (n : ℕ) (c : Chain) → (after_sends n c).id ≡ c.id
  unfolding after_sends next
  after_sends-id zero c = refl
  after_sends-id (suc n) c = after_sends-id n (next hmac c).2

  -- A reader that was handed the view of a chain derives, for each of the next `max_chain_skip`
  -- messages, exactly the key that the sender sealed it with, and the chain keeps its name.
  pub message_key-next :
      (c : Chain) (n : ℕ)
      → n ≤ max_chain_skip
      → c.index + n < 2 ^ 32
      → (message_key hmac (view c) (next hmac (after_sends n c)).1
          ≡ ok (next hmac (after_sends n c)).0)
        × ((next hmac (after_sends n c)).1 ≡ c.index + n)
        × ((next hmac (after_sends n c)).2.id ≡ (view c).id)
  unfolding message_key view next
  message_key-next c n small fits =
      let (i, s, d) = after_sends_lem n c fits in (ground (arith, i, s), i, d)

  -- `message_key` answers in exactly one of three ways, by where the position lies.
  pub message_key_cases :
      (v : ChainView) (i : ℕ)
      → ((i < v.index) × (message_key hmac v i ≡ err rewind))
        ⊎ (((v.index + max_chain_skip < i) × (message_key hmac v i ≡ err skip_too_large))
            ⊎ ((k : ℕ) × (v.index + k ≡ i)
                × (k ≤ max_chain_skip)
                × (message_key hmac v i ≡ ok (derive_key hmac (step_times hmac k v.state)))))
  unfolding message_key
  message_key_cases v i = elim (dec_lt i v.index) [
    | yes p ↦ inl (p, ground arith)
    | no p ↦ elim (dec_lt (v.index + max_chain_skip) i) [
      | yes q ↦ inr (inl (q, ground arith))
      | no q ↦ inr (inr (i - v.index, omega arith, omega arith, ground arith))
    ]
  ]

  -- `advance` moves exactly when the target lies ahead by at most `max_chain_skip`; otherwise it
  -- says so and the view is as it was.
  pub advance_cases :
      (v : ChainView) (to : ℕ)
      → ((v.index < to)
          × (to ≤ v.index + max_chain_skip)
          × ((advance hmac v to).1 ≡ true)
          × ((advance hmac v to).0.index ≡ to)
          × ((advance hmac v to).0.id ≡ v.id)
          × ((advance hmac v to).0.state ≡ step_times hmac (to - v.index) v.state))
        ⊎ (((to ≤ v.index) ⊎ (v.index + max_chain_skip < to)) × (advance hmac v to ≡ (v, false)))
  unfolding advance
  advance_cases v to = elim (dec_lt v.index to) [
    | no p ↦ inr (inl (omega arith), ground arith)
    | yes p ↦ elim (dec_lt (v.index + max_chain_skip) to) [
      | yes q ↦ inr (inr q, ground arith)
      | no q ↦ inl (p, omega arith, ground arith, ground arith, ground arith, ground arith)
    ]
  ]

  -- Winding a view forward takes away exactly the positions before the new one: those are
  -- refused, and from there on it gives the key that the unwound view gives.
  pub message_key-advance :
      (v w : ChainView) (to i : ℕ)
      → advance hmac v to ≡ (w, true)
      → i ≤ v.index + max_chain_skip
      → message_key hmac w i ≡ (if ltb i to then err rewind else message_key hmac v i)
  unfolding message_key advance
  message_key-advance v w to i moved near =
      ground (arith, step_times-add (to - v.index) (i - to) v.state)

  -- Two winds that both move are one wind, where the whole way is allowed.
  pub advance-advance :
      (v w : ChainView) (mid to : ℕ)
      → advance hmac v mid ≡ (w, true)
      → mid < to
      → to ≤ v.index + max_chain_skip
      → advance hmac w to ≡ advance hmac v to
  unfolding advance
  advance-advance v w mid to moved later near =
      ground (arith, step_times-add (mid - v.index) (to - mid) v.state)

  -- Winding our own chain and winding the view of it are the same.
  pub view-advance_chain :
      (c : Chain) (to : ℕ)
      → (view (advance_chain hmac c to).0, (advance_chain hmac c to).1) ≡ advance hmac (view c) to
  unfolding advance_chain advance view
  view-advance_chain c to = ground arith

  -- Positions reserved by a wind are those that as many calls of `next` would use up.
  pub advance_chain-next :
      (c : Chain) (n : ℕ)
      → 0 < n
      → n ≤ max_chain_skip
      → c.index + n < 2 ^ 32
      → advance_chain hmac c (c.index + n) ≡ (after_sends n c, true)
  unfolding advance_chain
  advance_chain-next c n pos small fits =
      let (i, s, d) = after_sends_lem n c fits in
      let gap : c.index + n - c.index ≡ n = omega arith in ground (arith, i, s, d, gap)
