-- ===== src/Oscar/RateLimit/Pacing.antt =====
-- What pacing promises of one class: the server's own average stays where nothing is dropped.
use bencchat.Oscar.RateLimit.{◌∷◌, RateClass, max_pace, at_most, pace}
use bencchat.Prelude.{
  List, ℕ, ◌+◌, ◌-◌, ◌*◌, ◌/◌, ◌≤◌, ◌<◌, ◌≡◌, refl, sym, subst, ap, ◌∙◌, suc, ◌⊎◌, arith, inl, inr,
  Option, none, some, ltb, [], ◌∷◌, All, if◌then◌else◌,
}
use native.Mathlib.Decide.{dec_le, dec_lt}
use native.Mathlib.Nat.{mul-suc, mul-le-mul_right, le-div_iff_mul-le, mul-div_cancel}

-- The server's recurrence: its average after a gap of `gap` milliseconds.
abbrev pub server_average : RateClass → ℕ → ℕ
server_average c gap = at_most c.max ((c.cur_avg * (c.window - 1) + gap) / c.window)

abbrev pub lower : ℕ → ℕ → ℕ
lower a b = if ltb a b then a else b

-- Where the last send lies ahead of the clock, the average is no higher than the target.
pub record IsPaced (now : ℕ) (c : RateClass) : Type 0 where
  pub window_pos : 0 < c.window
  pub above : lower c.target c.max ≤ c.cur_avg
  pub bounded : c.cur_avg ≤ c.max
  pub ahead : (c.last_send ≤ now) ⊎ (c.cur_avg ≤ c.target)

module _ (now : ℕ) (c : RateClass) (p : IsPaced now c) where
  abbrev earned : ℕ
  earned = now + c.cur_avg * (c.window - 1)

  abbrev due : ℕ
  due = c.target * c.window + c.last_send

  -- A gap of this length lands the average on the target.
  full_target : c.target * c.window ≡ c.target * (c.window - 1) + c.target
  full_target =
      let pos = p.window_pos in
      let one_more : c.window ≡ suc (c.window - 1) = omega arith in
      ap (λ w. c.target * w) one_more ∙ mul-suc c.target (c.window - 1)

  -- A send that need not wait comes after the last one.
  in_order : due ≤ earned → c.last_send ≤ now
  in_order early = elim p.ahead [
    | inl past ↦ past
    | inr low ↦ omega (arith, full_target, mul-le-mul_right (c.window - 1) low)
  ]

  -- One that must wait is put after the last one.
  behind_last : earned < due → c.last_send + c.cur_avg * (c.window - 1) ≤ due
  behind_last late = elim p.ahead [
    | inl past ↦ omega arith
    | inr low ↦ omega (arith, full_target, mul-le-mul_right (c.window - 1) low)
  ]

  lower-at_most : (avg : ℕ) → c.target ≤ avg → lower c.target c.max ≤ at_most c.max avg
  lower-at_most avg h = ground arith

  pub sent_now : RateClass
  sent_now = record c {
    cur_avg = at_most c.max ((earned - c.last_send) / c.window);
    last_send = now;
  }

  sent_now-IsPaced : due ≤ earned → IsPaced now sent_now
  unfolding sent_now
  sent_now-IsPaced early = record {
    window_pos = p.window_pos;
    above = lower-at_most _ ((le-div_iff_mul-le p.window_pos).1 (omega arith));
    bounded = ground arith;
    ahead = inl (omega arith);
  }

  pub sent_later : RateClass
  sent_later = record c {
    cur_avg = at_most c.max (c.target * c.window / c.window);
    last_send = now + (due - earned);
  }

  sent_later-IsPaced : earned < due → IsPaced now sent_later
  unfolding sent_later
  sent_later-IsPaced late =
      let whole : c.target * c.window / c.window ≡ c.target =
        mul-div_cancel c.target p.window_pos in
      record {
        window_pos = p.window_pos;
        above = lower-at_most _ (omega (arith, whole));
        bounded = ground arith;
        ahead = inr (ground (arith, whole));
      }

  -- What an allowed send does: it waits for `w`, lands `gap` after the one before it, and moves the
  -- average as the server does.
  abbrev pub Sends : ℕ → ℕ → RateClass → Type 0
  Sends w gap c' =
      (pace now c ≡ (some w, c'))
      × (w ≤ max_pace)
      × (c'.last_send ≡ now + w)
      × (c'.last_send ≡ c.last_send + gap)
      × (c'.cur_avg ≡ server_average c gap)
      × IsPaced now c'
      × (c'.window ≡ c.window)
      × (c'.target ≡ c.target)
      × (c'.max ≡ c.max)

  -- A send is refused, and then nothing changes, or it waits half a minute at most, goes out after
  -- the send before it, and leaves the average that the server computes from the gap between the
  -- two. That average is no lower than the target.
  pub pace_cases :
      (pace now c ≡ (none, c)) ⊎ ((w : ℕ) × (gap : ℕ) × (c' : RateClass) × Sends w gap c')
  unfolding pace sent_now sent_later
  pace_cases = elim (dec_le due earned) [
    | yes early ↦
        let past = in_order early in
        inr (
          0,
          now - c.last_send,
          sent_now,
          (
            ground arith,
            omega arith,
            omega arith,
            omega arith,
            ap (λ n. at_most c.max (n / c.window)) (omega arith),
            sent_now-IsPaced early,
            refl,
            refl,
            refl,
          ),
        )
    | no late ↦ elim (dec_lt max_pace (due - earned)) [
      | yes long ↦ inl (ground arith)
      | no short ↦
          let after = behind_last (omega arith) in
          inr (
            due - earned,
            now + (due - earned) - c.last_send,
            sent_later,
            (
              ground arith,
              omega arith,
              refl,
              omega arith,
              ap (λ n. at_most c.max (n / c.window)) (omega arith),
              sent_later-IsPaced (omega arith),
              refl,
              refl,
              refl,
            ),
          )
    ]
  ]

IsPaced-mono : (now now' : ℕ) (c : RateClass) → now ≤ now' → IsPaced now c → IsPaced now' c
IsPaced-mono now now' c h p = record {
  window_pos = p.window_pos;
  above = p.above;
  bounded = p.bounded;
  ahead = elim p.ahead [ inl past ↦ inl (omega arith) | inr low ↦ inr low ];
}

-- When the sends reach the server, for the times at which they are asked for.
pub arrivals : RateClass → List ℕ → List ℕ
arrivals c [] = []
arrivals c (now ∷ readings) =
    let later = arrivals (pace now c).1 readings in
    elim (pace now c).0 [ none ↦ later | some w ↦ (now + w) ∷ later ]

-- The averages that the server computes from those arrivals.
pub server_averages : ℕ → ℕ → ℕ → ℕ → List ℕ → List ℕ
server_averages window max avg last [] = []
server_averages window max avg last (t ∷ ts) =
    let a = at_most max ((avg * (window - 1) + (t - last)) / window) in
    a ∷ server_averages window max a t ts

abbrev pub Rising : ℕ → List ℕ → Type 0
Rising now [] = Unit {0}
Rising now (t ∷ ts) = (now ≤ t) × Rising t ts

abbrev Safe : ℕ → ℕ → ℕ → ℕ → ℕ → List ℕ → Type 0
Safe window target max avg last ts =
    All (λ a. lower target max ≤ a) (server_averages window max avg last ts)

Safe-along :
    (w w' t t' m m' a a' l l' : ℕ) (ts : List ℕ)
    → w ≡ w'
    → t ≡ t'
    → m ≡ m'
    → a ≡ a'
    → l ≡ l'
    → Safe w t m a l ts
    → Safe w' t' m' a' l' ts
Safe-along w w' t t' m m' a a' l l' ts ew et em ea el s =
    subst (λ x. Safe x t' m' a' l' ts) ew
      (subst (λ x. Safe w x m' a' l' ts) et
        (subst (λ x. Safe w t x a' l' ts) em
          (subst (λ x. Safe w t m x l' ts) ea (subst (λ x. Safe w t m a x ts) el s))))

arrivals-pace :
    (c : RateClass) (t : ℕ) (readings : List ℕ) (r : Option ℕ × RateClass)
    → pace t c ≡ r
    → arrivals c (t ∷ readings)
      ≡ (elim r.0 [ none ↦ arrivals r.1 readings | some w ↦ (t + w) ∷ arrivals r.1 readings ])
unfolding arrivals
arrivals-pace c t readings r e =
    ap
      (λ (r : Option ℕ × RateClass). elim r.0 [
        | none ↦ arrivals r.1 readings
        | some w ↦ (t + w) ∷ arrivals r.1 readings
      ])
      e

-- However often and at whatever rising times a paced class is asked to send, every average that the
-- server computes for it from the arrivals stays at the target or above, or at the class's maximum
-- where that is lower. Each send is taken to arrive after its wait.
pub server_averages-arrivals :
    (now : ℕ) (c : RateClass) (readings : List ℕ)
    → IsPaced now c
    → Rising now readings
    → All
        (λ a. lower c.target c.max ≤ a)
        (server_averages c.window c.max c.cur_avg c.last_send (arrivals c readings))
unfolding server_averages arrivals
server_averages-arrivals now c [] p r = tt
server_averages-arrivals now c (t ∷ readings) p (here, rest) =
    let p' = IsPaced-mono now t c here p in
    elim (pace_cases t c p') [
      | inl refused ↦
          let left : arrivals c (t ∷ readings) ≡ arrivals c readings =
            arrivals-pace c t readings (none, c) refused in
          subst (λ ts. Safe c.window c.target c.max c.cur_avg c.last_send ts) (sym left)
            (server_averages-arrivals t c readings p' rest)
      | inr (w, gap, c', (sent, short, at, gapped, avg, paced, ew, et, em)) ↦
          let went : arrivals c (t ∷ readings) ≡ (t + w) ∷ arrivals c' readings =
            arrivals-pace c t readings (some w, c') sent in
          let gap_is : t + w - c.last_send ≡ gap = omega arith in
          let average : server_average c (t + w - c.last_send) ≡ c'.cur_avg =
            ap (λ g. server_average c g) gap_is ∙ sym avg in
          let high : lower c.target c.max ≤ server_average c (t + w - c.last_send) =
            ground (arith, average, et, em, paced.above) in
          subst (λ ts. Safe c.window c.target c.max c.cur_avg c.last_send ts) (sym went)
            (
              high,
              Safe-along c'.window c.window c'.target c.target c'.max c.max c'.cur_avg
                  (server_average c (t + w - c.last_send)) c'.last_send (t + w)
                  (arrivals c' readings) ew et em (sym average) at
                  (server_averages-arrivals t c' readings paced rest),
            )
    ]
