-- ===== src/RateLimit/PerClient.antt =====
-- What the window of one client promises.
use agent_discovery_board.Prelude.{
  ℕ, ◌+◌, ◌-◌, ◌≤◌, ◌<◌, String, ◌≡◌, refl, ◌∙◌, ◌⊎◌, inl, inr, Bool, true, false, ◌&&◌, none, some,
  List, [], ◌∷◌, arith, ◌==◌, eq_iff, if◌then◌else◌, Bool-cases, All,
}
use agent_discovery_board.RateLimit.{
  Window, RateLimiter, get, put, roll_day, is_capped, counted, count_request, check_ip, Call,
  is_served, count_served,
}
use agent_discovery_board.RateLimit.Windows.{
  get-put, get-prune, prune-none, roll_day_fields, after, after_started, get-count_request,
  count_request_bound, count_request_limits,
}

-- What one check leaves of the window `w` of `ip`, and what it serves to `ip`.
record Step (ip : String) (w : Window) (l l' : RateLimiter) (mine : Bool) : Type 0 where
  next : Window
  found : get ip l'.counters ≡ some next
  started : next.started ≡ w.started
  window : l'.window_seconds ≡ l.window_seconds
  limit : l'.max_requests ≡ l.max_requests
  bound : (if mine then 1 else 0) + (l.max_requests - next.count) ≤ l.max_requests - w.count

check_ip-Step :
    (l : RateLimiter) (ip : String) (w : Window) (c : Call)
    → get ip l.counters ≡ some w
    → c.now < w.started + l.window_seconds
    → Step ip w l
        (check_ip l c.ip c.now c.utc).0
        (is_served (check_ip l c.ip c.now c.utc).1 && c.ip == ip)
unfolding check_ip
check_ip-Step l ip w c h live = elim (Bool-cases (is_capped (roll_day l c.utc))) [
  | inl e ↦
      let (same, window, limit, cap) = roll_day_fields l c.utc in
      rw e (record {
        next = w;
        found = rw same h;
        started = refl;
        window = window;
        limit = limit;
        bound = omega arith;
      })
  | inr e ↦
      let (same, window, limit, cap) = roll_day_fields l c.utc in
      let l' = roll_day l c.utc in
      let h' : get ip l'.counters ≡ some w = rw same h in
      let live' : c.now < w.started + l'.window_seconds = rw window live in
      rw e (record {
        next = after c.ip ip w;
        found = get-count_request l' ip c.ip w c.now h' live';
        started = after_started c.ip ip w;
        window = (count_request_limits l' c.ip c.now).0 ∙ window;
        limit = (count_request_limits l' c.ip c.now).1 ∙ limit;
        bound = omega (arith, count_request_bound l' ip c.ip w c.now h' live', limit);
      })
]

-- While the window `w` of a client is live, at most `max_requests - count` more of its requests
-- are served, whatever the other clients send.
pub served_in_window :
    (l : RateLimiter) (ip : String) (w : Window) (cs : List Call)
    → get ip l.counters ≡ some w
    → All (λ (c : Call). c.now < w.started + l.window_seconds) cs
    → count_served (λ c. c.ip == ip) l cs ≤ l.max_requests - w.count
unfolding count_served
served_in_window l ip w [] h live = omega arith
served_in_window l ip w (c ∷ cs) h (now, later) =
    let s = check_ip-Step l ip w c h now in
    let rest =
      served_in_window (check_ip l c.ip c.now c.utc).0 ip s.next cs s.found
        (rw (s.started, s.window) later) in
    omega (arith, rest, s.bound, s.limit)

-- A client that the limiter does not know: its first counted request opens a window.
get-check_ip_other :
    (l : RateLimiter) (ip : String) (c : Call)
    → get ip l.counters ≡ none
    → c.ip == ip ≡ false
    → get ip (check_ip l c.ip c.now c.utc).0.counters ≡ none
unfolding check_ip count_request roll_day
get-check_ip_other l ip c h e =
    let l' = roll_day l c.utc in
    let w = counted l' c.ip c.now in
    ground (arith, get-put c.ip ip w l.counters, prune-none l' c.now ip (put c.ip w l.counters))

counted_new :
    (l : RateLimiter) (ip : String) (now : ℕ)
    → get ip l.counters ≡ none
    → counted l ip now ≡ record { started = now; count = 1 }
unfolding counted
counted_new l ip now h = rw h (ground arith)

-- After the first request of a client: refused by the cap, or its window is open.
first_check :
    (l : RateLimiter) (ip : String) (c : Call)
    → get ip l.counters ≡ none
    → c.ip == ip ≡ true
    → 0 < l.window_seconds
    → (get ip (check_ip l c.ip c.now c.utc).0.counters ≡ none)
        × (is_served (check_ip l c.ip c.now c.utc).1 ≡ false)
      ⊎ (get ip (check_ip l c.ip c.now c.utc).0.counters
          ≡ some (record { started = c.now; count = 1 }))
        × ((if is_served (check_ip l c.ip c.now c.utc).1 then 1 else 0) + (l.max_requests - 1)
            ≤ l.max_requests)
unfolding check_ip count_request roll_day
first_check l ip c h e pos =
    let l' = roll_day l c.utc in
    let w : Window = record { started = c.now; count = 1 } in
    let same : c.ip ≡ ip = (eq_iff c.ip ip).0 e in
    let n : counted l' c.ip c.now ≡ w = counted_new l' c.ip c.now (rw same (ground arith)) in
    let p = get-put c.ip ip w l.counters in
    let k = get-prune l' c.now ip w (put c.ip w l.counters) in ground (arith, k)

check_ip_limits :
    (l : RateLimiter) (c : Call)
    → ((check_ip l c.ip c.now c.utc).0.window_seconds ≡ l.window_seconds)
      × ((check_ip l c.ip c.now c.utc).0.max_requests ≡ l.max_requests)
unfolding check_ip count_request roll_day
check_ip_limits l c = ground arith

-- Requests between `t` and one window later.
abbrev pub Within : ℕ → ℕ → List Call → Type 0
Within t window = All (λ c. (t ≤ c.now) × (c.now < t + window))

Within-later :
    (t u window : ℕ) (cs : List Call)
    → t ≤ u
    → Within t window cs
    → All (λ (c : Call). c.now < u + window) cs
Within-later t u window [] le h = tt
Within-later t u window (c ∷ cs) le (now, later) =
    (omega arith, Within-later t u window cs le later)

-- Of the requests that arrive within one window's length, a client that the limiter does not track
-- yet has at most `max_requests` served, whatever the other clients send and however the days turn.
pub client_bound :
    (l : RateLimiter) (ip : String) (t : ℕ) (cs : List Call)
    → get ip l.counters ≡ none
    → Within t l.window_seconds cs
    → count_served (λ c. c.ip == ip) l cs ≤ l.max_requests
unfolding count_served
client_bound l ip t [] h w = omega arith
client_bound l ip t (c ∷ cs) h (now, later) =
    let l' = (check_ip l c.ip c.now c.utc).0 in
    let (window, limit) = check_ip_limits l c in
    let quiet : get ip l'.counters ≡ none → count_served (λ c. c.ip == ip) l' cs ≤ l'.max_requests =
      λ g. client_bound l' ip t cs g (rw window later) in
    elim (Bool-cases (c.ip == ip)) [
      | inr e ↦ let r = quiet (get-check_ip_other l ip c h e) in ground arith
      | inl e ↦ elim (first_check l ip c h e (omega arith)) [
        | inl (g, refused) ↦ let r = quiet g in ground arith
        | inr (g, bound) ↦
            let r =
              served_in_window l' ip (record { started = c.now; count = 1 }) cs g
                (rw window (Within-later t c.now l.window_seconds cs (now.0) later)) in
            ground arith
      ]
    ]
