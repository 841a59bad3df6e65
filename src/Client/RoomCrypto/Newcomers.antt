-- ===== src/Client/RoomCrypto/Newcomers.antt =====
-- ChainBundleFor: what a newcomer is given reaches back to no message that was sent before.
use bencchat.Client.RoomCrypto.Trim.{bundle_view, bundle_views, chain_bundle_for}
use bencchat.Prelude.{
  ℕ, ◌+◌, ◌-◌, ◌^◌, ◌≤◌, ◌<◌, ◌≡◌, refl, sym, ap, subst, ◌⊎◌, arith, inl, inr, some, none, List, [],
  ◌∷◌, true, false, ltb, leb, Bool-cases, Option-cases, All, Any,
}
use bencchat.Prelude.Bytes.{Bytes}
use bencchat.Prelude.Outcome.{err}
use bencchat.Prelude.Assoc.{lookup}
use bencchat.E2ee.Ratchet.{ChainView, rewind, max_chain_skip, message_key, advance}
use bencchat.E2ee.Ratchet.Agreement.{message_key-advance, advance_cases}
use bencchat.Client.RoomCrypto.{RoomKeys}

module _ (hmac : Bytes → Bytes → Bytes) where
  -- `w` tells of the chain under `id` what comes after position `n`, and nothing else.
  abbrev pub OpensAfter : ℕ → ChainView → ChainView → Type 0
  OpensAfter n v w =
      ((i : ℕ) → i ≤ n → message_key hmac w i ≡ err rewind)
      × ((i : ℕ)
          → n < i
          → w.index ≤ i
          → i ≤ v.index + max_chain_skip
          → message_key hmac w i ≡ message_key hmac v i)

  wound-OpensAfter :
      (n : ℕ) (v : ChainView)
      → n + 1 ≤ v.index + max_chain_skip
      → (advance hmac v (n + 1)).1 ≡ true
      → OpensAfter n v (advance hmac v (n + 1)).0
  wound-OpensAfter n v near moved =
      let w : ChainView = (advance hmac v (n + 1)).0 in
      let whole : advance hmac v (n + 1) ≡ (w, true) = ap (λ b. (w, b)) moved in
      (
        λ i le. ground (arith, message_key-advance hmac v w (n + 1) i whole (omega arith)),
        λ i later reach end. ground (arith, message_key-advance hmac v w (n + 1) i whole end),
      )

  bundle_view_lem :
      (seen : List (Bytes × ℕ)) (id : Bytes) (v : ChainView)
      → (bundle_view hmac seen id v ≡ none)
        ⊎ ((w : ChainView) × (n : ℕ) × (bundle_view hmac seen id v ≡ some w)
            × (lookup id seen ≡ some n)
            × OpensAfter n v w)
  unfolding bundle_view
  bundle_view_lem seen id v = elim (Option-cases (lookup id seen)) [
    | inl unseen ↦ inl (ground (arith, unseen))
    | inr (n, at) ↦ elim (Bool-cases (ltb (2 ^ 32 - 1) (n + 1))) [
      | inl last ↦ inl (ground (arith, at, last))
      | inr more ↦ elim (Bool-cases (leb (n + 1) v.index)) [
        | inl ahead ↦ inr (
          v,
          n,
          ground (arith, at, more, ahead),
          at,
          (λ i le. unfold message_key in ground (arith, ahead), λ i later reach near. refl),
        )
        | inr behind ↦ elim (advance_cases hmac v (n + 1)) [
          | inl (from, near, moved, _, _, _) ↦ inr (
            (advance hmac v (n + 1)).0,
            n,
            ground (arith, at, more, behind, moved),
            at,
            wound-OpensAfter n v near moved,
          )
          | inr (out, still) ↦ inl (ground (arith, at, more, behind, still))
        ]
      ]
    ]
  ]

  All-weaken :
      {P Q : ChainView → Type 0} (ws : List ChainView)
      → ((w : ChainView) → P w → Q w)
      → All P ws
      → All Q ws
  All-weaken [] f a = tt
  All-weaken (w ∷ ws) f a = (f w a.0, All-weaken ws f a.1)

  abbrev Source : List (Bytes × ℕ) → List (Bytes × ChainView) → ChainView → Type 0
  Source seen views w = Any (λ p. (n : ℕ) × (lookup p.0 seen ≡ some n) × OpensAfter n p.1 w) views

  bundle_views_lem :
      (seen : List (Bytes × ℕ)) (views : List (Bytes × ChainView))
      → All (Source seen views) (bundle_views hmac seen views)
  unfolding bundle_views
  bundle_views_lem seen [] = tt
  bundle_views_lem seen ((id, v) ∷ m) =
      let rest : All (Source seen ((id, v) ∷ m)) (bundle_views hmac seen m) =
        All-weaken (bundle_views hmac seen m) (λ w p. inr p) (bundle_views_lem seen m) in
      elim (bundle_view_lem seen id v) [
        | inl nothing ↦
            let same : bundle_views hmac seen ((id, v) ∷ m) ≡ bundle_views hmac seen m =
              ground (arith, nothing) in
            subst (All (Source seen ((id, v) ∷ m))) (sym same) rest
        | inr (w, n, given, at, opens) ↦
            let more : bundle_views hmac seen ((id, v) ∷ m) ≡ w ∷ bundle_views hmac seen m =
              ground (arith, given) in
            subst (All (Source seen ((id, v) ∷ m))) (sym more) (inl (n, at, opens), rest)
      ]

  -- What a member is given: of each chain nothing, or a view that refuses every position up to the
  -- last one that was seen under it, and gives the key of the room's own view at each position
  -- after that. Who is not a member is given nothing.
  pub chain_bundle_for-OpensAfter :
      (rk : RoomKeys)
      → All
          (λ w. Any (λ p. (n : ℕ) × (lookup p.0 rk.seen ≡ some n) × OpensAfter n p.1 w) rk.views)
          (chain_bundle_for hmac true (some rk))
        × (chain_bundle_for hmac false (some rk) ≡ [])
  unfolding chain_bundle_for
  chain_bundle_for-OpensAfter rk = (bundle_views_lem rk.seen rk.views, refl)
