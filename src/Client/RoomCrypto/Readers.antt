-- ===== src/Client/RoomCrypto/Readers.antt =====
-- LearnChainView: what an offered view does to the keys that are held already.
use bencchat.Prelude.{
  ℕ, ◌+◌, ◌≤◌, ◌<◌, ◌⊎◌, ◌≡◌, refl, sym, subst, arith, some, List, true, inl, inr, leb, Bool-cases,
  Option-cases,
}
use bencchat.Prelude.Bytes.{Bytes, bytes_eq, bytes_eq→eq}
use bencchat.Prelude.Assoc.{lookup, insert, lookup-insert}
use bencchat.Prelude.Outcome.{err}
use bencchat.E2ee.Ratchet.{
  ChainView, skip_too_large, max_continuity_check, max_chain_skip, message_key, continues,
}
use bencchat.E2ee.Ratchet.Continuity.{continues_sound}
use bencchat.Client.RoomCrypto.{RoomKeys, accept_view, learn_chain_view}

module _ (hmac : Bytes → Bytes → Bytes) where
  -- `w` serves where `held` did: the same chain, from a position at most `max_continuity_check` before
  -- the held one, with the held view's answer at every position, or none where it is too far ahead of
  -- `w` to be wound.
  abbrev pub Covers : ChainView → ChainView → Type 0
  Covers held w =
      (w.id ≡ held.id)
      × (w.index ≤ held.index)
      × (held.index ≤ w.index + max_continuity_check)
      × ((i : ℕ)
          → held.index ≤ i
          → (message_key hmac w i ≡ message_key hmac held i)
            ⊎ ((w.index + max_chain_skip < i) × (message_key hmac w i ≡ err skip_too_large)))

  beyond_reach :
      (v : ChainView) (i : ℕ)
      → v.index + max_chain_skip < i
      → message_key hmac v i ≡ err skip_too_large
  unfolding message_key
  beyond_reach v i far = ground arith

  continues_names :
      (v held : ChainView)
      → continues hmac v held ≡ true
      → (v.id ≡ held.id) × (v.index ≤ held.index) × (held.index ≤ v.index + max_continuity_check)
  unfolding continues
  continues_names v held pass =
      (ground (arith, bytes_eq→eq v.id held.id), ground arith, ground arith)

  continues-Covers : (v held : ChainView) → continues hmac v held ≡ true → Covers held v
  continues-Covers v held pass =
      let (named, back, close) = continues_names v held pass in
      (
        named,
        back,
        close,
        λ i from. elim (Bool-cases (leb i (v.index + max_chain_skip))) [
          | inl near ↦ inl (continues_sound hmac v held i pass from (ground (arith, near))).2
          | inr far ↦
              let beyond : v.index + max_chain_skip < i = ground (arith, far) in
              inr (beyond, beyond_reach v i beyond)
        ],
      )

  Covers-self : (held : ChainView) → Covers held held
  Covers-self held = (refl, omega arith, omega arith, λ i from. inl refl)

  Found : Bytes → ChainView → List (Bytes × ChainView) → Type 0
  Found id held views = (w : ChainView) × (lookup id views ≡ some w) × Covers held w

  Found-same :
      (id : Bytes) (held : ChainView) (views : List (Bytes × ChainView))
      → lookup id views ≡ some held
      → Found id held views
  unfolding Found
  Found-same id held views e = (held, e, Covers-self held)

  Found-insert :
      (v : ChainView) (id : Bytes) (held : ChainView) (views : List (Bytes × ChainView))
      → lookup id views ≡ some held
      → (v.id ≡ id → continues hmac v held ≡ true)
      → Found id held (insert v.id v views)
  unfolding Found
  Found-insert v id held views e pass = elim (Bool-cases (bytes_eq v.id id)) [
    | inr other ↦ (held, ground (arith, lookup-insert v.id id v views, e), Covers-self held)
    | inl same ↦
        let good : continues hmac v held ≡ true = pass (bytes_eq→eq v.id id same) in
        (v, ground (arith, lookup-insert v.id id v views, same), continues-Covers v held good)
  ]

  accept_view-Found :
      (v : ChainView) (views : List (Bytes × ChainView)) (id : Bytes) (held : ChainView)
      → lookup id views ≡ some held
      → Found id held (accept_view hmac v views)
  unfolding accept_view
  accept_view-Found v views id held e = elim (Option-cases (lookup v.id views)) [
    | inl gone ↦
        let put : accept_view hmac v views ≡ insert v.id v views = ground (arith, gone) in
        subst (Found id held) (sym put)
          (Found-insert v id held views e (λ same. absurd (ground (arith, e, gone, same))))
    | inr (have, there) ↦ elim (Bool-cases (leb have.index v.index)) [
      | inl later ↦
          let left : accept_view hmac v views ≡ views = ground (arith, there, later) in
          subst (Found id held) (sym left) (Found-same id held views e)
      | inr earlier ↦ elim (Bool-cases (continues hmac v have)) [
        | inr other ↦
            let left : accept_view hmac v views ≡ views = ground (arith, there, earlier, other) in
            subst (Found id held) (sym left) (Found-same id held views e)
        | inl pass ↦
            let put : accept_view hmac v views ≡ insert v.id v views =
              ground (arith, there, earlier, pass) in
            subst (Found id held) (sym put) (Found-insert v id held views e (λ same. cc))
      ]
    ]
  ]

  -- Nothing that another member offers changes a held key: after a view is learned, every chain that
  -- had a view still has one, of the same name, that begins at most 10000 positions before the held
  -- one and no later, and from the held position on it gives the held view's answer at every
  -- position, except for those more than `max_chain_skip` ahead of where it begins, which it refuses as
  -- too far.
  pub learn_chain_view-Covers :
      (v : ChainView) (rk : RoomKeys) (id : Bytes) (held : ChainView)
      → lookup id rk.views ≡ some held
      → (w : ChainView) × (lookup id (learn_chain_view hmac v rk).views ≡ some w) × Covers held w
  unfolding learn_chain_view Found
  learn_chain_view-Covers v rk id held e = accept_view-Found v rk.views id held e
