-- ===== src/RateLimit.antt =====
-- app/core/rate_limit.py: `RateLimiter`, a fixed window for each client behind a global daily cap.
-- Times are whole microseconds: `time.monotonic()` as `now`, the UTC clock as `utc`. A day is the
-- number of whole days in `utc`, which `strftime("%Y-%m-%d")` spells one to one.
pub mod Cap
pub mod PerClient
pub mod Wait
pub mod Windows
use agent_discovery_board.Prelude.{
  ℕ, ◌+◌, ◌-◌, ◌*◌, ◌/◌, max, String, Bool, ◌&&◌, Option, none, some, List, [], ◌∷◌, ◌==◌, ltb, leb,
  eqb, not, true, false, or_else, length, keep, if◌then◌else◌,
}

abbrev pub second : ℕ
second = 1000000

abbrev pub day_length : ℕ
day_length = 86400 * second

abbrev pub max_tracked_ips : ℕ
max_tracked_ips = 10000

-- The tuple (window_start, count) of one client.
pub record Window : Type 0 where
  pub started : ℕ
  pub count : ℕ

abbrev pub Counters : Type 0
Counters = List (String × Window)

-- A limit or a cap that is not positive behaves like 0 in every test of the source.
pub record RateLimiter : Type 0 where
  pub max_requests : ℕ
  pub window_seconds : ℕ
  pub global_daily_cap : ℕ
  pub counters : Counters
  pub day : ℕ
  pub served_today : ℕ

pub data Outcome : Type 0 where
  served : Outcome
  daily_limit : ℕ → Outcome
  too_many : ℕ → Outcome

-- self._counters.get(ip)
unfoldable pub get : String → Counters → Option Window
get ip [] = none
get ip ((k, w) ∷ rest) = if k == ip then some w else get ip rest

-- self._counters[ip] = w, which keeps the place of a key that is there
unfoldable pub put : String → Window → Counters → Counters
put ip w [] = (ip, w) ∷ []
put ip w ((k, v) ∷ rest) = if k == ip then (k, w) ∷ rest else (k, v) ∷ put ip w rest

unfoldable pub new : ℕ → ℕ → ℕ → ℕ → RateLimiter
new max_requests window_seconds cap utc = record {
  max_requests = max_requests;
  window_seconds = window_seconds;
  global_daily_cap = cap;
  counters = [];
  day = utc / day_length;
  served_today = 0;
}

-- The first lines of `check_ip`: a new day starts its count at 0.
unfoldable pub roll_day : RateLimiter → ℕ → RateLimiter
roll_day l utc =
    if eqb (utc / day_length) l.day
    then l
    else record l { day = utc / day_length; served_today = 0 }

unfoldable pub is_capped : RateLimiter → Bool
is_capped l = ltb 0 l.global_daily_cap && leb l.global_daily_cap l.served_today

-- now - started >= window_seconds
abbrev pub is_over : RateLimiter → ℕ → ℕ → Bool
is_over l now started = leb (started + l.window_seconds) now

-- The window that the request counts in, with the request counted.
unfoldable pub counted : RateLimiter → String → ℕ → Window
counted l ip now =
    let w = or_else (get ip l.counters) (record { started = now; count = 0 }) in
    if is_over l now w.started
    then record { started = now; count = 1 }
    else record { started = w.started; count = w.count + 1 }

-- math.ceil(window_seconds - (now - window_start)), at least 1
unfoldable pub retry_after : RateLimiter → ℕ → ℕ → ℕ
retry_after l now started = max 1 ((started + l.window_seconds - now + (second - 1)) / second)

-- int((next_midnight - utc).total_seconds()), at least 1
unfoldable pub until_midnight : ℕ → ℕ
until_midnight utc = max 1 (((utc / day_length + 1) * day_length - utc) / second)

-- Drops the finished windows, once more than `max_tracked_ips` clients are tracked.
unfoldable pub prune : RateLimiter → ℕ → Counters → Counters
prune l now counters =
    if ltb max_tracked_ips (length counters)
    then keep (λ (e : String × Window). not (is_over l now e.1.started)) counters
    else counters

unfoldable pub count_request : RateLimiter → String → ℕ → RateLimiter × Outcome
count_request l ip now =
    let w = counted l ip now in
    let counters = put ip w l.counters in
    if ltb l.max_requests w.count
    then (record l { counters = counters }, too_many (retry_after l now w.started))
    else (record l { counters = prune l now counters; served_today = l.served_today + 1 }, served)

unfoldable pub check_ip : RateLimiter → String → ℕ → ℕ → RateLimiter × Outcome
check_ip l ip now utc =
    let l' = roll_day l utc in
    if is_capped l' then (l', daily_limit (until_midnight utc)) else count_request l' ip now

-- `check`: a request without a client address counts as "unknown".
unfoldable pub check : RateLimiter → Option String → ℕ → ℕ → RateLimiter × Outcome
check l client now utc = check_ip l (or_else client "unknown") now utc

unfoldable pub reset : RateLimiter → ℕ → RateLimiter
reset l utc = record l { counters = []; day = utc / day_length; served_today = 0 }

-- One request: the client, and the two clocks when it is checked.
pub record Call : Type 0 where
  pub ip : String
  pub now : ℕ
  pub utc : ℕ

-- The limiter after a sequence of requests.
unfoldable pub run : RateLimiter → List Call → RateLimiter
run l [] = l
run l (c ∷ cs) = run (check_ip l c.ip c.now c.utc).0 cs

abbrev pub is_served : Outcome → Bool
is_served served = true
is_served _ = false

-- How many requests of a sequence pass `p` and are served.
unfoldable pub count_served : (Call → Bool) → RateLimiter → List Call → ℕ
count_served p l [] = 0
count_served p l (c ∷ cs) =
    let (l', out) = check_ip l c.ip c.now c.utc in
    (if is_served out && p c then 1 else 0) + count_served p l' cs
