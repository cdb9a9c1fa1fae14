-- ===== src/AdminImport/Monad.antt =====
-- app/api/routes/admin_import.py: the state that the import handler works on, and its steps.
use agent_discovery_board.Prelude.{String, Bool, true, false, List, ◌∷◌, Json}
use agent_discovery_board.Errors.{ApiError, Result, ok, err, crash, api_error, conflict}
use agent_discovery_board.RateLimit.{RateLimiter, Outcome, served, daily_limit, too_many}
use agent_discovery_board.Board.Monad.{limit_error}
use agent_discovery_board.Store.{Db}

-- The tables, the two limiters, the lock `_import_running`, the call's `info`, and the audit log.
pub record ImportState : Type 0 where
  pub db : Db
  pub auth_failure_limiter : RateLimiter
  pub import_limiter : RateLimiter
  pub running : Bool
  pub info : List (String × Json)
  pub audit_log : List (List (String × Json))

abbrev pub Run : Type 0 → Type 0
Run A = ImportState → Result A × ImportState

module _ {A : Type 0} where
  abbrev pub pure : A → Run A
  pure a st = (ok a, st)

  abbrev pub raise : ApiError → Run A
  raise e st = (err e, st)

  -- An exception that is no HTTPException.
  abbrev pub escape : Run A
  escape st = (crash, st)

abbrev pub resume : {A B : Type 0} → (A → Run B) → Result A → Run B
resume f (ok a) = f a
resume f (err e) = raise e
resume f crash = escape

infixl 5 ◌>>=◌ ◌>>◌
unfoldable pub ◌>>=◌ : {A B : Type 0} → Run A → (A → Run B) → Run B
◌>>=◌ m f st = let (r, st') = m st in resume f r st'

abbrev pub ◌>>◌ : {A B : Type 0} → Run A → Run B → Run B
m >> k = m >>= λ _. k

-- info.update(...)
unfoldable pub note : String × Json → Run (Unit {0})
note field st = (ok tt, record st { info = field ∷ st.info })

-- A limiter's outcome, as `RateLimiter.check` raises it.
abbrev pub limit : Outcome → Run (Unit {0})
limit served = pure tt
limit (daily_limit n) = raise (limit_error n)
limit (too_many n) = raise (limit_error n)

-- try: ... finally: _import_running.release(), where the lock is taken or free.
abbrev pub locked : {A : Type 0} → Bool → Run A → Run A
locked true m st = (err (api_error 409 conflict), st)
locked false m st =
    let (r, st') = m (record st { running = true }) in (r, record st' { running = false })

unfoldable pub under_lock : {A : Type 0} → Run A → Run A
under_lock m st = locked st.running m st
