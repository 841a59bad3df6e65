-- ===== src/Oscar/RateLimit.antt =====
-- internal/oscar/ratelimit.go: how long a send waits, so that the server drops none.
-- The clock is read in whole milliseconds. The source's int64 values `required`, `elapsed` and `gap`
-- may be negative: here both sides of each comparison and sum are moved so that no term is. Levels
-- and windows are what a server announces, small enough that no product reaches 2 ^ 63.
pub mod Pacing
pub mod Limiter
use bencchat.Prelude.{
  ◌^◌, ℕ, ◌+◌, ◌-◌, ◌*◌, ◌/◌, Bool, true, false, Option, none, some, List, [], ◌∷◌, ltb, leb, ◌==◌,
  if◌then◌else◌,
}
use bencchat.Prelude.Table.{find, store}

abbrev pub max_pace : ℕ
max_pace = 30 * 1000

pub record RateClass : Type 0 where
  pub window : ℕ
  pub target : ℕ
  pub max : ℕ
  pub cur_avg : ℕ
  pub last_send : ℕ

abbrev pub at_most : ℕ → ℕ → ℕ
at_most max avg = if ltb max avg then max else avg

-- `earned` is `elapsed + cur_avg * (window - 1) + last_send`, `due` is
-- `required + cur_avg * (window - 1) + last_send`. The wait, unless the send is refused.
unfoldable pub pace : ℕ → RateClass → Option ℕ × RateClass
pace now c =
    let earned = now + c.cur_avg * (c.window - 1) in
    let due = c.target * c.window + c.last_send in
    if leb due earned
    then (
      some 0,
      record c { cur_avg = at_most c.max ((earned - c.last_send) / c.window); last_send = now },
    )
    else if ltb max_pace (due - earned)
    then (none, c)
    else (
      some (due - earned),
      record c {
        cur_avg = at_most c.max (c.target * c.window / c.window);
        last_send = now + (due - earned);
      },
    )

-- A class and a group of the server's reply.
pub record ClassParams : Type 0 where
  pub id : ℕ
  pub window_size : ℕ
  pub limit_level : ℕ
  pub alert_level : ℕ
  pub max_level : ℕ

pub record GroupParams : Type 0 where
  pub class_id : ℕ
  pub pairs : List (ℕ × ℕ)

pub record RateLimiter : Type 0 where
  pub classes : List (ℕ × RateClass)
  pub snacs : List (ℕ × ℕ)

unfoldable pub snac_key : ℕ → ℕ → ℕ
snac_key food_group sub_group = food_group * 2 ^ 16 + sub_group

-- What `reserve` says: not paced, wait so long, or refused.
pub data Pace : Type 0 where
  free refused : Pace
  wait : ℕ → Pace

unfoldable pub new_class : ℕ → ClassParams → RateClass
new_class now p = record {
  window = p.window_size;
  target =
      if ltb p.limit_level p.alert_level
      then p.limit_level + (p.alert_level - p.limit_level) / 2
      else p.limit_level;
  max = p.max_level;
  cur_avg = p.max_level;
  last_send = now;
}

unfoldable pub add_classes : ℕ → List ClassParams → List (ℕ × RateClass) → List (ℕ × RateClass)
unfolding new_class
add_classes now [] m = m
add_classes now (p ∷ ps) m =
    add_classes now ps (if p.window_size == 0 then m else store p.id (new_class now p) m)

unfoldable pub add_pairs : ℕ → List (ℕ × ℕ) → List (ℕ × ℕ) → List (ℕ × ℕ)
unfolding snac_key
add_pairs class_id [] m = m
add_pairs class_id ((fg, sg) ∷ ps) m = add_pairs class_id ps (store (snac_key fg sg) class_id m)

unfoldable pub add_groups : List (ℕ × RateClass) → List GroupParams → List (ℕ × ℕ) → List (ℕ × ℕ)
unfolding add_pairs
add_groups classes [] m = m
add_groups classes (g ∷ gs) m = elim (find g.class_id classes) [
  | none ↦ add_groups classes gs m
  | some _ ↦ add_groups classes gs (add_pairs g.class_id g.pairs m)
]

unfoldable pub new_rate_limiter : ℕ → List ClassParams → List GroupParams → RateLimiter
unfolding add_classes add_groups
new_rate_limiter now classes groups =
    let made = add_classes now classes [] in
    record { classes = made; snacs = add_groups made groups [] }

unfoldable pub paced : ℕ → RateLimiter → Option ℕ × RateClass → Pace × RateLimiter
paced id rl (none, c) = (refused, rl)
paced id rl (some w, c) = (wait w, record rl { classes = store id c rl.classes })

-- `none`: `rl.classes[id]` is nil, and reading it panics.
unfoldable pub reserve : ℕ → ℕ → ℕ → RateLimiter → Option (Pace × RateLimiter)
unfolding paced pace
reserve now fg sg rl = elim (find (snac_key fg sg) rl.snacs) [
  | none ↦ some (free, rl)
  | some id ↦ elim (find id rl.classes) [ none ↦ none | some c ↦ some (paced id rl (pace now c)) ]
]
