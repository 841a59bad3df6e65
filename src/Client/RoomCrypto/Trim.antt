-- ===== src/Client/RoomCrypto/Trim.antt =====
-- internal/client/room_e2ee.go: PruneChainViews, and ChainBundleFor, which winds the views that a
-- newcomer is given.
use bencchat.Prelude.{
  ℕ, ◌+◌, ◌-◌, ◌^◌, Bool, true, false, Option, none, some, List, [], ◌∷◌, ltb, leb, if◌then◌else◌,
}
use bencchat.Prelude.Bytes.{Bytes, bytes_eq}
use bencchat.Prelude.Assoc.{lookup}
use bencchat.E2ee.Ratchet.{Chain, ChainView, advance}
use bencchat.Client.RoomCrypto.{RoomKeys, chain_retention}

module _ (hmac : Bytes → Bytes → Bytes) where
  -- One view of PruneChainViews.
  unfoldable pub prune_view : Option Chain → List (Bytes × ℕ) → Bytes → ChainView → ChainView × Bool
  prune_view out seen id v =
      if (elim out [ none ↦ false | some c ↦ bytes_eq id c.id ])
      then (v, false)
      else elim (lookup id seen) [
        | none ↦ (v, false)
        | some n ↦
            if ltb n chain_retention
            then (v, false)
            else if leb (n - chain_retention) v.index
            then (v, false)
            else advance hmac v (n - chain_retention)
      ]

  unfoldable pub prune_views :
      Option Chain → List (Bytes × ℕ) → List (Bytes × ChainView) → List (Bytes × ChainView) × ℕ
  prune_views out seen [] = ([], 0)
  prune_views out seen ((id, v) ∷ m) =
      let (v', moved) = prune_view out seen id v in
      let (m', k) = prune_views out seen m in ((id, v') ∷ m', if moved then k + 1 else k)

  unfoldable pub prune_chain_views : RoomKeys → RoomKeys × ℕ
  unfolding prune_views prune_view
  prune_chain_views rk =
      let (views, moved) = prune_views rk.out rk.seen rk.views in
      (record rk { views = views }, moved)

  -- What a newcomer is given of one chain: nothing, or the view wound to behind `seen`.
  unfoldable pub bundle_view : List (Bytes × ℕ) → Bytes → ChainView → Option ChainView
  bundle_view seen id v = elim (lookup id seen) [
    | none ↦ none
    | some n ↦
        if ltb (2 ^ 32 - 1) (n + 1)
        then none
        else if leb (n + 1) v.index
        then some v
        else (let (wound, moved) = advance hmac v (n + 1) in if moved then some wound else none)
  ]

  unfoldable pub bundle_views : List (Bytes × ℕ) → List (Bytes × ChainView) → List ChainView
  bundle_views seen [] = []
  bundle_views seen ((id, v) ∷ m) = elim (bundle_view seen id v) [
    | none ↦ bundle_views seen m
    | some w ↦ w ∷ bundle_views seen m
  ]

  -- `member`: whether the recipient is in the room.
  unfoldable pub chain_bundle_for : Bool → Option RoomKeys → List ChainView
  unfolding bundle_views bundle_view
  chain_bundle_for false room = []
  chain_bundle_for true none = []
  chain_bundle_for true (some rk) = bundle_views rk.seen rk.views
