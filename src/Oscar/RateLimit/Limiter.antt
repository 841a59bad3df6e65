-- ===== src/Oscar/RateLimit/Limiter.antt =====
-- The limiter as a whole: no send meets a class that is not there, and every class stays paced.
use bencchat.Prelude.{
  ℕ, ◌≡◌, refl, subst, ◌⊎◌, arith, inl, inr, some, List, [], ◌∷◌, All, Bool-cases, Option-cases,
  ◌==◌, false,
}
use bencchat.Prelude.Table.{find, store, find-store}
use bencchat.Oscar.RateLimit.{
  RateClass, ClassParams, GroupParams, RateLimiter, Pace, free, refused, wait, snac_key, new_class,
  add_classes, add_pairs, add_groups, new_rate_limiter, paced, reserve,
}
use bencchat.Oscar.RateLimit.Pacing.{IsPaced, pace_cases}

abbrev Targets : List (ℕ × RateClass) → List (ℕ × ℕ) → Type 0
Targets classes snacs =
    (k id : ℕ) → find k snacs ≡ some id → (c : RateClass) × (find id classes ≡ some c)

abbrev EachPaced : ℕ → List (ℕ × RateClass) → Type 0
EachPaced now = All (λ p. IsPaced now p.1)

-- Every paced type of message has a class, and every class is paced.
pub record IsLimiter (now : ℕ) (rl : RateLimiter) : Type 0 where
  pub targets :
      (k id : ℕ) → find k rl.snacs ≡ some id → (c : RateClass) × (find id rl.classes ≡ some c)
  pub each : All (λ p. IsPaced now p.1) rl.classes

EachPaced-store :
    (now id : ℕ) (c : RateClass) (m : List (ℕ × RateClass))
    → IsPaced now c
    → EachPaced now m
    → EachPaced now (store id c m)
unfolding store
EachPaced-store now id c [] p a = (p, tt)
EachPaced-store now id c ((j, d) ∷ m) p a = elim (Bool-cases (j == id)) [
  | inl here ↦ rw here (p, a.1)
  | inr there ↦ rw there (a.0, EachPaced-store now id c m p a.1)
]

EachPaced-find :
    (now id : ℕ) (c : RateClass) (m : List (ℕ × RateClass))
    → EachPaced now m
    → find id m ≡ some c
    → IsPaced now c
unfolding find
EachPaced-find now id c [] a e = cc
EachPaced-find now id c ((j, d) ∷ m) a e = elim (Bool-cases (j == id)) [
  | inl here ↦ let same : d ≡ c = ground (arith, here, e) in subst (IsPaced now) same a.0
  | inr there ↦ EachPaced-find now id c m a.1 (ground (arith, there, e))
]

new_class-IsPaced :
    (now : ℕ) (p : ClassParams) → (p.window_size == 0) ≡ false → IsPaced now (new_class now p)
unfolding new_class
new_class-IsPaced now p pos = record {
  window_pos = ground arith;
  above = ground arith;
  bounded = ground arith;
  ahead = inl (ground arith);
}

add_classes-EachPaced :
    (now : ℕ) (ps : List ClassParams) (m : List (ℕ × RateClass))
    → EachPaced now m
    → EachPaced now (add_classes now ps m)
unfolding add_classes
add_classes-EachPaced now [] m a = a
add_classes-EachPaced now (p ∷ ps) m a = elim (Bool-cases (p.window_size == 0)) [
  | inl skipped ↦ rw skipped (add_classes-EachPaced now ps m a)
  | inr pos ↦ rw pos (
      add_classes-EachPaced now ps (store p.id (new_class now p) m)
        (EachPaced-store now p.id (new_class now p) m (new_class-IsPaced now p pos) a))
]

store-Targets :
    (classes : List (ℕ × RateClass)) (key id : ℕ) (c : RateClass) (m : List (ℕ × ℕ))
    → find id classes ≡ some c
    → Targets classes m
    → Targets classes (store key id m)
store-Targets classes key id c m e t k id' f = elim (Bool-cases (key == k)) [
  | inl hit ↦
      let same : some id ≡ some id' = ground (arith, find-store key k id m, hit, f) in
      (c, ground (arith, e, same))
  | inr miss ↦ t k id' (ground (arith, find-store key k id m, miss, f))
]

add_pairs-Targets :
    (classes : List (ℕ × RateClass)) (id : ℕ) (c : RateClass) (ps : List (ℕ × ℕ)) (m : List (ℕ × ℕ))
    → find id classes ≡ some c
    → Targets classes m
    → Targets classes (add_pairs id ps m)
unfolding add_pairs
add_pairs-Targets classes id c [] m e t = t
add_pairs-Targets classes id c ((fg, sg) ∷ ps) m e t =
    add_pairs-Targets classes id c ps (store (snac_key fg sg) id m) e
      (store-Targets classes (snac_key fg sg) id c m e t)

add_groups-Targets :
    (classes : List (ℕ × RateClass)) (gs : List GroupParams) (m : List (ℕ × ℕ))
    → Targets classes m
    → Targets classes (add_groups classes gs m)
unfolding add_groups
add_groups-Targets classes [] m t = t
add_groups-Targets classes (g ∷ gs) m t = elim (Option-cases (find g.class_id classes)) [
  | inl gone ↦ rw (gone, add_groups) (add_groups-Targets classes gs m t)
  | inr (c, e) ↦
      rw (e, add_groups)
        (add_groups-Targets classes gs (add_pairs g.class_id g.pairs m)
          (add_pairs-Targets classes g.class_id c g.pairs m e t))
]

-- A limiter built from any reply of the server is well formed: a group of a class that the reply
-- does not give, or gives with an empty window, paces nothing.
pub new_rate_limiter-IsLimiter :
    (now : ℕ) (classes : List ClassParams) (groups : List GroupParams)
    → IsLimiter now (new_rate_limiter now classes groups)
unfolding new_rate_limiter
new_rate_limiter-IsLimiter now classes groups = record {
  targets = add_groups-Targets (add_classes now classes []) groups [] (λ k id e. unfold find in cc);
  each = add_classes-EachPaced now classes [] tt;
}

find-store_kept :
    (id j : ℕ) (c d : RateClass) (m : List (ℕ × RateClass))
    → find j m ≡ some d
    → (x : RateClass) × (find j (store id c m) ≡ some x)
find-store_kept id j c d m e = elim (Bool-cases (id == j)) [
  | inl same ↦ (c, ground (arith, find-store id j c m, same))
  | inr other ↦ (d, ground (arith, find-store id j c m, other, e))
]

-- `reserve` always answers: no message type leads to a class that is not there. It leaves the
-- limiter well formed, and a message that is not paced or is refused leaves it as it was.
pub reserve-IsLimiter :
    (now fg sg : ℕ) (rl : RateLimiter)
    → IsLimiter now rl
    → (p : Pace) × (rl' : RateLimiter) × (reserve now fg sg rl ≡ some (p, rl'))
      × IsLimiter now rl'
      × ((p ≡ free) ⊎ (p ≡ refused) → rl' ≡ rl)
unfolding reserve paced
reserve-IsLimiter now fg sg rl l = elim (Option-cases (find (snac_key fg sg) rl.snacs)) [
  | inl unmapped ↦ (free, rl, ground (arith, unmapped), l, λ why. refl)
  | inr (id, mapped) ↦
      let (c, there) = l.targets (snac_key fg sg) id mapped in
      elim (pace_cases now c (EachPaced-find now id c rl.classes l.each there)) [
        | inl late ↦ (refused, rl, ground (arith, mapped, there, late), l, λ why. refl)
        | inr (w, gap, c', (sent, _, _, _, _, good, _, _, _)) ↦ (
          wait w,
          record rl { classes = store id c' rl.classes },
          ground (arith, mapped, there, sent),
          record {
            targets = λ k j e. find-store_kept id j c' _ rl.classes (l.targets k j e).1;
            each = EachPaced-store now id c' rl.classes good l.each;
          },
          λ why. elim why [ inl e ↦ cc | inr e ↦ cc ],
        )
      ]
]
