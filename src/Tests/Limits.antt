-- ===== src/Tests/Limits.antt =====
-- The rate limits, activity, the purge's throttle and the price at concrete inputs.
use agent_discovery_board.Prelude.{◌+◌, ◌≤◌, refl, true, none, List, [], ◌∷◌, arith, ◌==◌}
use agent_discovery_board.Tests.Data.{limiter}
use agent_discovery_board.RateLimit.{RateLimiter, Call, get, count_served}
use agent_discovery_board.RateLimit.PerClient.{client_bound}
use agent_discovery_board.RateLimit.Cap.{daily_bound}
use agent_discovery_board.Maintenance.{Throttle}

abbrev calls : List Call
calls =
    record { ip = "10.0.0.1"; now = 7; utc = 7 }
    ∷ record { ip = "10.0.0.2"; now = 8; utc = 8 }
    ∷ record { ip = "10.0.0.1"; now = 9; utc = 9 }
    ∷ []

client_bound_example : count_served (λ c. c.ip == "10.0.0.1") limiter calls ≤ 5
unfolding get
client_bound_example =
    client_bound limiter "10.0.0.1" 7 calls refl
      ((omega arith, omega arith), ((omega arith, omega arith), ((omega arith, omega arith), tt)))

abbrev full : RateLimiter
full = record limiter { counters = ("10.0.0.1", record { started = 5; count = 5 }) ∷ [] }

abbrev refused : RateLimiter
refused = record limiter { counters = ("10.0.0.1", record { started = 5; count = 6 }) ∷ [] }

daily_bound_example : count_served (λ c. true) limiter calls + 0 ≤ 1000
daily_bound_example =
    daily_bound limiter calls (omega arith) (omega arith) (refl, (refl, (refl, tt)))

abbrev spent : RateLimiter
spent = record limiter { served_today = 1000 }

abbrev quiet : Throttle
quiet = record { ttl = 100; min_interval = 600; last_run = none }
