-- ===== src/Verifier/Threads.antt =====
-- app/core/verifier_info.py: when a refresh runs. Requests and background threads interleave in any
-- order; the lock makes each start and the end of each refresh one step.
use agent_discovery_board.Prelude.{
  ℕ, ◌+◌, ◌-◌, ◌≤◌, ◌<◌, String, ◌≡◌, refl, Bool, true, false, Option, some, List, [], ◌∷◌, arith,
  if◌then◌else◌, All, JsonLibrary,
}
use agent_discovery_board.Verifier.{
  Stored, Verifier, fresh, load_from_db, Attempt, succeeded, refresh, Waits, refresh_due, start,
  start_if_due, refresh_crashed,
}

-- The module with the number of its background threads.
pub record System : Type 0 where
  pub verifier : Verifier
  pub threads : ℕ

abbrev started : System → Verifier × Bool → System
started s (v, new) = record { verifier = v; threads = s.threads + (if new then 1 else 0) }

pub data Step (lib : JsonLibrary) (w : Waits) (s : System) : System → Type 0 where
  start_up : (enabled : Bool) → Step lib w s (started s (start enabled s.verifier))
  ask :
      (enabled : Bool) (now : ℕ) → Step lib w s (started s (start_if_due w enabled now s.verifier))
  finish :
      (stored : Option (List (String × Stored))) (a : Attempt)
      → 0 < s.threads
      → Step lib w s
          (record { verifier = (refresh lib stored a s.verifier).0; threads = s.threads - 1 })
  fail :
      0 < s.threads
      → Step lib w s (record { verifier = refresh_crashed s.verifier; threads = s.threads - 1 })

pub data Reach (lib : JsonLibrary) (w : Waits) : System → Type 0 where
  imported : Reach lib w (record { verifier = fresh; threads = 0 })
  next : {s t : System} → Reach lib w s → Step lib w s t → Reach lib w t

-- A thread runs exactly while the flag is set.
record IsTracked (s : System) : Type 0 where
  counted : s.threads ≡ (if s.verifier.refreshing then 1 else 0)

Step-IsTracked :
    {lib : JsonLibrary} {w : Waits} {s t : System} → Step lib w s t → IsTracked s → IsTracked t
unfolding start start_if_due refresh refresh_crashed load_from_db
Step-IsTracked (start_up enabled) c = ground arith
Step-IsTracked (ask enabled now) c = ground arith
Step-IsTracked (finish stored a busy) c = ground arith
Step-IsTracked (fail busy) c = ground arith

Reach-IsTracked : {lib : JsonLibrary} {w : Waits} {s : System} → Reach lib w s → IsTracked s
Reach-IsTracked imported = record { counted = refl }
Reach-IsTracked (next r st) = Step-IsTracked st (Reach-IsTracked r)

-- However requests, the startup and the ends of refreshes interleave, at most one background refresh
-- runs at a time, and the flag is set exactly while it runs.
pub one_refresh :
    {lib : JsonLibrary} {w : Waits} {s : System}
    → Reach lib w s
    → (s.threads ≤ 1) × (s.threads ≡ (if s.verifier.refreshing then 1 else 0))
one_refresh r = let c = Reach-IsTracked r in ground arith

-- The requests at `times`, with how many of them start a refresh.
pub ask_all : Waits → Bool → List ℕ → Verifier → ℕ
ask_all w enabled [] v = 0
ask_all w enabled (now ∷ times) v =
    let (v', new) = start_if_due w enabled now v in
    (if new then 1 else 0) + ask_all w enabled times v'

abbrev wait_of : Waits → Verifier → ℕ
wait_of w v = if v.last_attempt_ok then w.ttl else w.backoff

too_early :
    (w : Waits) (enabled : Bool) (now t : ℕ) (v : Verifier)
    → v.last_attempt ≡ some t
    → now < t + wait_of w v
    → start_if_due w enabled now v ≡ (v, false)
unfolding start_if_due start refresh_due
too_early w enabled now t v e early = ground arith

quiet :
    (w : Waits) (enabled : Bool) (times : List ℕ) (v : Verifier) (t : ℕ)
    → v.last_attempt ≡ some t
    → All (λ now. now < t + wait_of w v) times
    → ask_all w enabled times v ≡ 0
unfolding ask_all
quiet w enabled [] v t e h = refl
quiet w enabled (now ∷ times) v t e (early, rest) =
    let later = quiet w enabled times v t e rest in
    rw (too_early w enabled now t v e early) (omega arith)

refresh_ended :
    (lib : JsonLibrary) (stored : Option (List (String × Stored))) (a : Attempt) (v : Verifier)
    → let v' = (refresh lib stored a v).0 in
      (v'.last_attempt ≡ some a.ended)
      × (v'.last_attempt_ok ≡ succeeded lib a)
      × (v'.refreshing ≡ false)
unfolding refresh
refresh_ended lib stored a v = (refl, refl, refl)

-- After a refresh no request starts another before the wait is over, which is the TTL if both
-- documents were read and the backoff if not; the first request after it starts one.
pub backoff_respected :
    (lib : JsonLibrary) (w : Waits) (stored : Option (List (String × Stored))) (a : Attempt)
    (v : Verifier) (times : List ℕ) (now : ℕ)
    → let wait = if succeeded lib a then w.ttl else w.backoff in
      All (λ t. t < a.ended + wait) times
      → a.ended + wait ≤ now
      → let v' = (refresh lib stored a v).0 in
        (ask_all w true times v' ≡ 0) × ((start_if_due w true now v').1 ≡ true)
unfolding start_if_due start refresh_due
backoff_respected lib w stored a v times now early due =
    let (attempt, is_ok, idle) = refresh_ended lib stored a v in
    (quiet w true times (refresh lib stored a v).0 a.ended attempt (rw is_ok early), ground arith)
