-- ===== src/RateLimit/Windows.antt =====
-- The table of windows: `put`, the pruning and `count_request`, seen by one client.
use agent_discovery_board.Prelude.{
  ℕ, ◌+◌, ◌-◌, ◌≤◌, ◌<◌, String, ◌≡◌, refl, ap, inl, inr, false, not, ◌&&◌, none, some, [], ◌∷◌,
  arith, ◌==◌, eq_iff, if◌then◌else◌, Bool-cases, keep,
}
use agent_discovery_board.RateLimit.{
  Window, Counters, RateLimiter, get, put, roll_day, is_over, counted, prune, count_request,
  is_served,
}

pub get-put :
    (ip k : String) (w : Window) (cs : Counters)
    → get k (put ip w cs) ≡ (if ip == k then some w else get k cs)
unfolding get put
get-put ip k w [] = refl
get-put ip k w ((j, v) ∷ cs) =
    ground (arith, eq_iff ip k, eq_iff j ip, eq_iff j k, get-put ip k w cs)

-- Pruning keeps a window that is not over, where keys are found at their first place.
get-keep :
    (l : RateLimiter) (now : ℕ) (ip : String) (w : Window) (cs : Counters)
    → is_over l now w.started ≡ false
    → get ip cs ≡ some w
    → get ip (keep (λ (e : String × Window). not (is_over l now e.1.started)) cs) ≡ some w
unfolding get
get-keep l now ip w [] live h = h
get-keep l now ip w ((k, v) ∷ cs) live h = ground (arith, get-keep l now ip w cs live)

pub get-prune :
    (l : RateLimiter) (now : ℕ) (ip : String) (w : Window) (cs : Counters)
    → is_over l now w.started ≡ false
    → get ip cs ≡ some w
    → get ip (prune l now cs) ≡ some w
unfolding prune
get-prune l now ip w cs live h = ground (arith, get-keep l now ip w cs live h)

keep-none :
    (l : RateLimiter) (now : ℕ) (ip : String) (cs : Counters)
    → get ip cs ≡ none
    → get ip (keep (λ (e : String × Window). not (is_over l now e.1.started)) cs) ≡ none
unfolding get
keep-none l now ip [] h = h
keep-none l now ip ((k, v) ∷ cs) h = ground (arith, keep-none l now ip cs)

pub prune-none :
    (l : RateLimiter) (now : ℕ) (ip : String) (cs : Counters)
    → get ip cs ≡ none
    → get ip (prune l now cs) ≡ none
unfolding prune
prune-none l now ip cs h = ground (arith, keep-none l now ip cs h)

pub roll_day_fields :
    (l : RateLimiter) (utc : ℕ)
    → ((roll_day l utc).counters ≡ l.counters)
      × ((roll_day l utc).window_seconds ≡ l.window_seconds)
      × ((roll_day l utc).max_requests ≡ l.max_requests)
      × ((roll_day l utc).global_daily_cap ≡ l.global_daily_cap)
unfolding roll_day
roll_day_fields l utc = ground arith

-- The window of `ip` after a live window `w` has seen a request of the client `k`.
pub after : String → String → Window → Window
after k ip w = if k == ip then record { started = w.started; count = w.count + 1 } else w

pub counted_live :
    (l : RateLimiter) (ip : String) (w : Window) (now : ℕ)
    → get ip l.counters ≡ some w
    → now < w.started + l.window_seconds
    → counted l ip now ≡ record { started = w.started; count = w.count + 1 }
unfolding counted
counted_live l ip w now h live = rw h (ground arith)

pub get-put-counted :
    (l : RateLimiter) (ip k : String) (w : Window) (now : ℕ)
    → get ip l.counters ≡ some w
    → now < w.started + l.window_seconds
    → get ip (put k (counted l k now) l.counters) ≡ some (after k ip w)
unfolding after
get-put-counted l ip k w now h live = elim (Bool-cases (k == ip)) [
  | inl e ↦ rw (get-put, e) (ap some (counted_live l k w now (rw ((eq_iff k ip).0 e) h) live))
  | inr e ↦ rw (get-put, e) h
]

pub after_started : (k ip : String) (w : Window) → (after k ip w).started ≡ w.started
unfolding after
after_started k ip w = ground arith

pub get-count_request :
    (l : RateLimiter) (ip k : String) (w : Window) (now : ℕ)
    → get ip l.counters ≡ some w
    → now < w.started + l.window_seconds
    → get ip (count_request l k now).0.counters ≡ some (after k ip w)
unfolding count_request
get-count_request l ip k w now h live =
    let g = get-put-counted l ip k w now h live in
    let s = after_started k ip w in
    ground (arith, get-prune l now ip (after k ip w) (put k (counted l k now) l.counters))

pub count_request_bound :
    (l : RateLimiter) (ip k : String) (w : Window) (now : ℕ)
    → get ip l.counters ≡ some w
    → now < w.started + l.window_seconds
    → (if is_served (count_request l k now).1 && k == ip then 1 else 0)
        + (l.max_requests - (after k ip w).count)
      ≤ l.max_requests - w.count
unfolding count_request after
count_request_bound l ip k w now h live = elim (Bool-cases (k == ip)) [
  | inl e ↦ let c = counted_live l k w now (rw ((eq_iff k ip).0 e) h) live in ground arith
  | inr e ↦ ground arith
]

pub count_request_limits :
    (l : RateLimiter) (k : String) (now : ℕ)
    → ((count_request l k now).0.window_seconds ≡ l.window_seconds)
      × ((count_request l k now).0.max_requests ≡ l.max_requests)
unfolding count_request
count_request_limits l k now = ground arith
