-- ===== src/E2ee/Ratchet.antt =====
-- internal/e2ee/ratchet.go: per-sender message chains.
-- `hmac key message` stands for HMAC-SHA256. The loops `for i := v.Index; i < to; i++` run
-- `to - v.Index` rounds, which is the first argument of `step_times`.
pub mod Agreement
pub mod Continuity
use bencchat.Prelude.{
  ℕ, zero, suc, ◌+◌, ◌-◌, ◌%◌, ◌^◌, Bool, true, false, ◌&&◌, not, List, [], ◌∷◌, ltb, leb,
  if◌then◌else◌,
}
use bencchat.Prelude.Bytes.{Bytes, bytes_eq}
use bencchat.Prelude.Outcome.{Result, ok, err}

abbrev pub max_chain_skip : ℕ
max_chain_skip = 100000

abbrev pub max_continuity_check : ℕ
max_continuity_check = 10000

abbrev domain_message : ℕ
domain_message = 0x01

abbrev domain_ratchet : ℕ
domain_ratchet = 0x02

pub data ChainError : Type 0 where
  rewind skip_too_large : ChainError

pub record Chain : Type 0 where
  pub id : Bytes
  pub state : Bytes
  pub index : ℕ

pub record ChainView : Type 0 where
  pub id : Bytes
  pub state : Bytes
  pub index : ℕ

unfoldable pub view : Chain → ChainView
view c = record { id = c.id; state = c.state; index = c.index }

module _ (hmac : Bytes → Bytes → Bytes) where
  unfoldable pub step : Bytes → Bytes
  step state = hmac state (domain_ratchet ∷ [])

  unfoldable pub derive_key : Bytes → Bytes
  derive_key state = hmac state (domain_message ∷ [])

  unfoldable pub step_times : ℕ → Bytes → Bytes
  step_times zero state = state
  step_times (suc n) state = step_times n (step state)

  -- The key, the position and the chain behind it. `c.Index++` wraps at 32 bits.
  unfoldable pub next : Chain → Bytes × ℕ × Chain
  next c = (
    derive_key c.state,
    c.index,
    record c { state = step c.state; index = (c.index + 1) % 2 ^ 32 },
  )

  unfoldable pub advance_chain : Chain → ℕ → Chain × Bool
  advance_chain c to =
      if leb to c.index
      then (c, false)
      else if ltb max_chain_skip (to - c.index)
      then (c, false)
      else (record { id = c.id; state = step_times (to - c.index) c.state; index = to }, true)

  unfoldable pub message_key : ChainView → ℕ → Result ChainError Bytes
  message_key v index =
      if ltb index v.index
      then err rewind
      else if ltb max_chain_skip (index - v.index)
      then err skip_too_large
      else ok (derive_key (step_times (index - v.index) v.state))

  unfoldable pub advance : ChainView → ℕ → ChainView × Bool
  advance v to =
      if leb to v.index
      then (v, false)
      else if ltb max_chain_skip (to - v.index)
      then (v, false)
      else (record { id = v.id; state = step_times (to - v.index) v.state; index = to }, true)

  unfoldable pub continues : ChainView → ChainView → Bool
  continues v prior =
      if not (bytes_eq v.id prior.id)
      then false
      else if ltb prior.index v.index
      then false
      else if ltb max_continuity_check (prior.index - v.index)
      then false
      else bytes_eq (step_times (prior.index - v.index) v.state) prior.state
