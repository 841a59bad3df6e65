-- ===== src/Tests/Pace.antt =====
-- A rate class as a server announces it.
use bencchat.Prelude.{◌≤◌, ◌≡◌, ◌⊎◌, arith, inl, some, List, [], ◌∷◌, All}
use bencchat.Oscar.RateLimit.{
  RateClass, ClassParams, GroupParams, RateLimiter, Pace, free, refused, new_rate_limiter, reserve,
}
use bencchat.Oscar.RateLimit.Pacing
use bencchat.Oscar.RateLimit.Pacing.{IsPaced, lower, server_averages, arrivals, Sends}
use bencchat.Oscar.RateLimit.Limiter
use bencchat.Oscar.RateLimit.Limiter.{IsLimiter}

abbrev class : RateClass
class = record { window = 20; target = 2250; max = 6000; cur_avg = 6000; last_send = 1000 }

class-IsPaced : IsPaced 1000 class
class-IsPaced = record {
  window_pos = omega arith;
  above = omega arith;
  bounded = omega arith;
  ahead = inl (omega arith);
}

server_averages-arrivals_example :
    All
      (λ a. lower 2250 6000 ≤ a)
      (server_averages 20 6000 6000 1000 (arrivals class (1001 ∷ 1002 ∷ 1003 ∷ [])))
server_averages-arrivals_example =
    Pacing.server_averages-arrivals 1000 class (1001 ∷ 1002 ∷ 1003 ∷ []) class-IsPaced (omega arith)

abbrev reply : List ClassParams
reply =
    record { id = 3; window_size = 20; limit_level = 2000; alert_level = 2500; max_level = 6000 }
    ∷ []

abbrev groups : List GroupParams
groups =
    record { class_id = 3; pairs = (4, 6) ∷ [] } ∷ record { class_id = 9; pairs = (1, 1) ∷ [] } ∷ []

reserve-IsLimiter_example :
    (p : Pace) × (rl' : RateLimiter) × (reserve 1000 4 6 (new_rate_limiter 1000 reply groups)
      ≡ some (p, rl'))
    × IsLimiter 1000 rl'
    × ((p ≡ free) ⊎ (p ≡ refused) → rl' ≡ new_rate_limiter 1000 reply groups)
reserve-IsLimiter_example =
    Limiter.reserve-IsLimiter 1000 4 6 (new_rate_limiter 1000 reply groups)
      (Limiter.new_rate_limiter-IsLimiter 1000 reply groups)
