-- ===== src/RateLimit/Cap.antt =====
-- What the global daily cap promises.
use agent_discovery_board.Prelude.{
  ℕ, ◌+◌, ◌*◌, ◌/◌, ◌≤◌, ◌<◌, String, ◌≡◌, ◌∙◌, ◌≢◌, ◌⊎◌, true, List, [], ◌∷◌, arith, if◌then◌else◌,
  All,
}
use agent_discovery_board.RateLimit.{
  RateLimiter, daily_limit, roll_day, is_capped, until_midnight, count_request, check_ip, Call,
  is_served, count_served, second, day_length,
}

module _ (l : RateLimiter) (ip : String) (now utc : ℕ) where
  check_ip_day :
      ((check_ip l ip now utc).0.day ≡ utc / day_length)
      × ((check_ip l ip now utc).0.global_daily_cap ≡ l.global_daily_cap)
  unfolding check_ip count_request roll_day
  check_ip_day = ground arith

  -- One check on the limiter's own day counts exactly what it serves, and stays within the cap.
  check_ip_count :
      0 < l.global_daily_cap
      → utc / day_length ≡ l.day
      → l.served_today ≤ l.global_daily_cap
      → ((check_ip l ip now utc).0.served_today
          ≡ (if is_served (check_ip l ip now utc).1 then 1 else 0) + l.served_today)
        × ((check_ip l ip now utc).0.served_today ≤ l.global_daily_cap)
  unfolding check_ip count_request roll_day is_capped
  check_ip_count pos today fits = ground arith

-- On one day at most `global_daily_cap` requests, where that is positive, are served over all clients: with those that were
-- served before, the requests of any sequence do not pass the cap.
pub daily_bound :
    (l : RateLimiter) (cs : List Call)
    → 0 < l.global_daily_cap
    → l.served_today ≤ l.global_daily_cap
    → All (λ (c : Call). c.utc / day_length ≡ l.day) cs
    → count_served (λ c. true) l cs + l.served_today ≤ l.global_daily_cap
unfolding count_served
daily_bound l [] pos fits days = omega arith
daily_bound l (c ∷ cs) pos fits (today, later) =
    let l' = (check_ip l c.ip c.now c.utc).0 in
    let (day, cap) = check_ip_day l c.ip c.now c.utc in
    let (count, fits') = check_ip_count l c.ip c.now c.utc pos today fits in
    let rest = daily_bound l' cs (rw cap pos) (rw cap fits') (rw (day ∙ today) later) in
    ground arith

-- A request on a day whose cap is used up is refused and changes nothing. Its wait is at least one
-- second and otherwise ends at most one second before midnight UTC, and never after it.
pub capped_check :
    (l : RateLimiter) (ip : String) (now utc : ℕ)
    → 0 < l.global_daily_cap
    → l.global_daily_cap ≤ l.served_today
    → utc / day_length ≡ l.day
    → (r : ℕ) × (check_ip l ip now utc ≡ (l, daily_limit r))
      × (1 ≤ r)
      × ((r ≡ 1) ⊎ (utc + r * second ≤ (l.day + 1) * day_length))
      × ((l.day + 1) * day_length < utc + (r + 1) * second)
unfolding check_ip roll_day is_capped until_midnight
capped_check l ip now utc pos full today =
    (until_midnight utc, ground arith, ground arith, ground arith, ground arith)

-- The first request after midnight is counted on a fresh day, however many were served before: it
-- is never refused by a positive cap.
pub new_day_check :
    (l : RateLimiter) (ip : String) (now utc : ℕ)
    → utc / day_length ≢ l.day
    → ((check_ip l ip now utc).1 ≢ daily_limit (until_midnight utc))
      × ((check_ip l ip now utc).0.served_today ≤ 1)
unfolding check_ip count_request roll_day is_capped
new_day_check l ip now utc other = ground arith
