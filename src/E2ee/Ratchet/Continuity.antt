-- ===== src/E2ee/Ratchet/Continuity.antt =====
-- `Continues`: when a view offered by somebody else is the chain that is already held.
use bencchat.Prelude.{ℕ, ◌+◌, ◌-◌, ◌≤◌, ◌≡◌, arith, true}
use bencchat.Prelude.Bytes.{Bytes, bytes_eq→eq, bytes_eq_refl}
use bencchat.E2ee.Ratchet.{
  ChainView, max_chain_skip, max_continuity_check, step_times, message_key, advance, continues,
}
use bencchat.E2ee.Ratchet.Agreement.{step_times-add}

module _ (hmac : Bytes → Bytes → Bytes) where
  -- A view that passes carries the held chain's name, reaches back at least as far, and gives the
  -- held chain's key at every position that the held view covers.
  pub continues_sound :
      (v prior : ChainView) (i : ℕ)
      → continues hmac v prior ≡ true
      → prior.index ≤ i
      → i ≤ v.index + max_chain_skip
      → (v.id ≡ prior.id)
        × (v.index ≤ prior.index)
        × (message_key hmac v i ≡ message_key hmac prior i)
  unfolding continues message_key
  continues_sound v prior i pass from near = ground (
    arith,
    bytes_eq→eq v.id prior.id,
    bytes_eq→eq (step_times hmac (prior.index - v.index) v.state) prior.state,
    step_times-add hmac (prior.index - v.index) (i - prior.index) v.state,
  )

  -- A view passes against every wind of it that is at most `max_continuity_check` positions long.
  pub continues-advance :
      (v w : ChainView) (to : ℕ)
      → advance hmac v to ≡ (w, true)
      → to ≤ v.index + max_continuity_check
      → continues hmac v w ≡ true
  unfolding continues advance
  continues-advance v w to moved near =
      ground (arith, bytes_eq_refl v.id, bytes_eq_refl (step_times hmac (to - v.index) v.state))
