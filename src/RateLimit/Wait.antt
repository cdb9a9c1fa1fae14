-- ===== src/RateLimit/Wait.antt =====
-- The wait that a refused client is told.
use agent_discovery_board.Prelude.{
  ℕ, ◌+◌, ◌-◌, ◌*◌, ◌≤◌, String, ◌≡◌, ◌⊎◌, true, false, some, arith, eq_refl,
}
use agent_discovery_board.RateLimit.{
  Window, RateLimiter, too_many, get, roll_day, is_over, counted, retry_after, count_request,
  check_ip, second,
}
use agent_discovery_board.RateLimit.Windows.{get-put}

-- The wait that a refused client is told is at least one second; after it the client's window is
-- over, and a wait that is a second shorter is too short unless it is the least one.
pub too_many_wait :
    (l l' : RateLimiter) (ip : String) (now utc r : ℕ) (w : Window)
    → check_ip l ip now utc ≡ (l', too_many r)
    → get ip l'.counters ≡ some w
    → (1 ≤ r)
      × (is_over l' (now + r * second) w.started ≡ true)
      × ((r ≡ 1) ⊎ (is_over l' (now + (r - 1) * second) w.started ≡ false))
unfolding check_ip count_request roll_day retry_after
too_many_wait l l' ip now utc r w e g =
    ground (arith, get-put ip ip (counted (roll_day l utc) ip now) l.counters, eq_refl ip)
