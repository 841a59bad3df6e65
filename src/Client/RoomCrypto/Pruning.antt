-- ===== src/Client/RoomCrypto/Pruning.antt =====
-- PruneChainViews: what a save takes away of a held view, and what it leaves.
use bencchat.Client.RoomCrypto.Trim.{prune_view, prune_views, prune_chain_views}
use bencchat.Prelude.{
  ℕ, ◌+◌, ◌-◌, ◌≤◌, ◌<◌, ◌≡◌, refl, sym, ap, subst, arith, inl, inr, Option, some, none, List, [],
  ◌∷◌, true, false, Bool-cases,
}
use bencchat.Prelude.Bytes.{Bytes, bytes_eq, bytes_eq_iff, bytes_eq→eq}
use bencchat.Prelude.Outcome.{err}
use bencchat.Prelude.Assoc.{lookup}
use bencchat.E2ee.Ratchet.{Chain, ChainView, rewind, max_chain_skip, message_key, advance}
use bencchat.E2ee.Ratchet.Agreement.{message_key-advance, advance_cases}
use bencchat.Client.RoomCrypto.{RoomKeys, chain_retention}

module _ (hmac : Bytes → Bytes → Bytes) where
  -- `w` is `v` without what lies more than `chain_retention` positions before `n`.
  abbrev pub KeepsFrom : ℕ → ChainView → ChainView → Type 0
  KeepsFrom n v w =
      (w.id ≡ v.id)
      × ((i : ℕ)
          → n ≤ i + chain_retention
          → i ≤ v.index + max_chain_skip
          → message_key hmac w i ≡ message_key hmac v i)
      × (n ≤ v.index + max_chain_skip + chain_retention
          → (i : ℕ) → i + chain_retention < n
          → message_key hmac w i ≡ err rewind)

  advance-KeepsFrom :
      (n : ℕ) (v : ChainView) → KeepsFrom n v (advance hmac v (n - chain_retention)).0
  advance-KeepsFrom n v = elim (advance_cases hmac v (n - chain_retention)) [
    | inl (from, near, moved, _, named, _) ↦
        let w : ChainView = (advance hmac v (n - chain_retention)).0 in
        let whole : advance hmac v (n - chain_retention) ≡ (w, true) = ap (λ b. (w, b)) moved in
        (
          named,
          (λ i recent end.
              ground (arith, message_key-advance hmac v w (n - chain_retention) i whole end)),
          λ fits i old.
              ground
                (arith, message_key-advance hmac v w (n - chain_retention) i whole (omega arith)),
        )
    | inr (why, still) ↦
        let same : (advance hmac v (n - chain_retention)).0 ≡ v = ap (λ p. p.0) still in
        subst (KeepsFrom n v) (sym same) (
          refl,
          (λ i recent end. refl),
          λ fits i old.
              unfold message_key in
              elim why [ inl past ↦ ground (arith, past) | inr far ↦ absurd (omega arith) ],
        )
  ]

  -- The view of a chain of someone else's is wound to `chain_retention` behind the last position.
  prune_view-advance :
      (out : Option Chain) (seen : List (Bytes × ℕ)) (id : Bytes) (v : ChainView) (n : ℕ)
      → ((c : Chain) → out ≡ some c → bytes_eq id c.id ≡ false)
      → lookup id seen ≡ some n
      → (prune_view hmac out seen id v).0 ≡ (advance hmac v (n - chain_retention)).0
  unfolding prune_view advance
  prune_view-advance none seen id v n foreign at = ground (arith, at)
  prune_view-advance (some c) seen id v n foreign at = ground (arith, at, foreign c refl)

  prune_view-own :
      (out : Option Chain) (seen : List (Bytes × ℕ)) (id : Bytes) (v : ChainView) (c : Chain)
      → out ≡ some c
      → c.id ≡ id
      → (prune_view hmac out seen id v).0 ≡ v
  unfolding prune_view
  prune_view-own out seen id v c own same = ground (arith, own, bytes_eq_iff id c.id)

  lookup-prune_views :
      (out : Option Chain) (seen : List (Bytes × ℕ)) (id : Bytes) (v : ChainView)
      (views : List (Bytes × ChainView))
      → lookup id views ≡ some v
      → lookup id (prune_views hmac out seen views).0 ≡ some (prune_view hmac out seen id v).0
  unfolding prune_views lookup
  lookup-prune_views out seen id v [] e = cc
  lookup-prune_views out seen id v ((j, u) ∷ m) e = elim (Bool-cases (bytes_eq j id)) [
    | inl here ↦
        let named : j ≡ id = bytes_eq→eq j id here in
        let same : some u ≡ some v = ground (arith, e, here) in ground (arith, here, named, same)
    | inr there ↦ ground (arith, there, lookup-prune_views out seen id v m, e)
  ]

  -- A save winds the views of other members' chains, and no further than 2000 positions behind the
  -- last one seen: such a view keeps its name and gives the same key at each of the last 2000
  -- positions and everywhere after them, and where one wind can reach that far it refuses every
  -- position before. The view of the room's own chain stays as it is.
  pub prune_chain_views-KeepsFrom :
      (rk : RoomKeys) (id : Bytes) (v : ChainView)
      → lookup id rk.views ≡ some v
      → (w : ChainView) × (lookup id (prune_chain_views hmac rk).0.views ≡ some w)
        × ((n : ℕ)
            → lookup id rk.seen ≡ some n
            → ((c : Chain) → rk.out ≡ some c → bytes_eq id c.id ≡ false)
            → KeepsFrom n v w)
        × ((c : Chain) → rk.out ≡ some c → c.id ≡ id → w ≡ v)
  unfolding prune_chain_views
  prune_chain_views-KeepsFrom rk id v e = (
    (prune_view hmac rk.out rk.seen id v).0,
    lookup-prune_views rk.out rk.seen id v rk.views e,
    (λ n at foreign.
        subst (KeepsFrom n v) (sym (prune_view-advance rk.out rk.seen id v n foreign at))
          (advance-KeepsFrom n v)),
    λ c own same. prune_view-own rk.out rk.seen id v c own same,
  )
