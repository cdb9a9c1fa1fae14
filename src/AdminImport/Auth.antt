-- ===== src/AdminImport/Auth.antt =====
-- app/core/import_auth.py with app/api/routes/admin_import.py: what a call without the key, and a dry
-- run, can do.
use agent_discovery_board.Prelude.{
  ℕ, ◌≡◌, refl, ap, ◌∙◌, ◌≢◌, ◌⊎◌, inl, inr, Bool, true, false, [], ◌∷◌, arith, str, or_else,
}
use agent_discovery_board.Errors.{ApiError, Result, ok, err}
use agent_discovery_board.RateLimit.{RateLimiter, Outcome, served, daily_limit, too_many, check}
use agent_discovery_board.Board.Monad.{limit_error}
use agent_discovery_board.Store.{Db}
use agent_discovery_board.AdminImport.{
  ImportState, Run, limit, locked, under_lock, Request, Env, bool_param, ImportResult, ◌>>=◌,
}
use agent_discovery_board.AdminImport.Handler.{
  unsigned_error, is_authorized, limit_failures, limit_imports, authorize, handle, write_audit,
  import_listings,
}
use agent_discovery_board.AdminImport.Effects.{Does, handle-Does, Does-bind, if-Does, raise-Does}

-- A call without the key: refused, with the tables, the importers' limiter and the lock untouched.
pub record IsRefused (st : ImportState) (out : Result ImportResult) (st' : ImportState)
    : Type 0 where
  pub error : ApiError
  pub refused : out ≡ err error
  pub status : (error.status_code ≡ 401) ⊎ (error.status_code ≡ 429)
  pub same_tables : st'.db ≡ st.db
  pub same_limiter : st'.import_limiter ≡ st.import_limiter
  pub same_lock : st'.running ≡ st.running

module _ (env : Env) (r : Request) (st : ImportState) where
  refuse :
      (out : Outcome) (l : RateLimiter)
      → check st.auth_failure_limiter r.client env.mono env.wall ≡ (l, out)
      → is_authorized env r ≡ false
      → (e : ApiError) × ((e.status_code ≡ 401) ⊎ (e.status_code ≡ 429))
        × (handle env r st ≡ (err e, record st { auth_failure_limiter = l }))
  unfolding handle authorize limit_failures ◌>>=◌
  refuse served l c wrong = (unsigned_error, inl refl, ground arith)
  refuse (daily_limit n) l c wrong = (limit_error n, inr refl, ground arith)
  refuse (too_many n) l c wrong = (limit_error n, inr refl, ground arith)

-- Without the key a call that reaches the handler is refused with 401 or 429, and the tables, the limiter of real imports and
-- the lock are as before, whatever else the request holds.
pub unauthorized-IsRefused :
    (env : Env) (r : Request) (st : ImportState)
    → is_authorized env r ≡ false
    → let (out, st') = import_listings env r st in IsRefused st out st'
unfolding import_listings write_audit
unauthorized-IsRefused env r st wrong =
    let asked = record st { info = ("client", str (or_else r.client "unknown")) ∷ [] } in
    let (l, out) = check st.auth_failure_limiter r.client env.mono env.wall in
    let (e, s, h) = refuse env r asked out l refl wrong in
    record {
      error = e;
      refused = ap (λ x. x.0) h;
      status = s;
      same_tables = ap (λ x. x.1.db) h;
      same_limiter = ap (λ x. x.1.import_limiter) h;
      same_lock = ap (λ x. x.1.running) h;
    }

-- The tables are as before.
record KeptTables (s t : ImportState) : Type 0 where
  same_db : t.db ≡ s.db

KeptTables-refl : (s : ImportState) → KeptTables s s
KeptTables-refl s = record { same_db = refl }

KeptTables-trans : (s t u : ImportState) → KeptTables s t → KeptTables t u → KeptTables s u
KeptTables-trans s t u p q = record { same_db = q.same_db ∙ p.same_db }

abbrev Keeps : {A : Type 0} → Run A → Type 0
Keeps = Does KeptTables KeptTables-refl KeptTables-trans

limit-Kept : (out : Outcome) (s t : ImportState) → KeptTables s t → KeptTables s (limit out t).1
limit-Kept served s t k = k
limit-Kept (daily_limit n) s t k = k
limit-Kept (too_many n) s t k = k

locked-Kept :
    {A : Type 0} (m : Run A) (st : ImportState) (b : Bool)
    → Keeps m
    → KeptTables st (locked b m st).1
locked-Kept m st true h = KeptTables-refl st
locked-Kept m st false h = record { same_db = (h.run (record st { running = true })).same_db }

under_lock-Keeps : {A : Type 0} (m : Run A) → Keeps m → Keeps (under_lock m)
unfolding under_lock
under_lock-Keeps m h = record { run = λ st. locked-Kept m st st.running h }

module _ (env : Env) (r : Request) where
  authorize-Keeps : Keeps (authorize env r)
  unfolding authorize limit_imports limit_failures
  authorize-Keeps =
      if-Does KeptTables KeptTables-refl KeptTables-trans (is_authorized env r) _ _
        (record {
          run = λ st.
              limit-Kept (check st.import_limiter r.client env.mono env.wall).1 st _
                (record { same_db = refl });
        })
        (Does-bind KeptTables KeptTables-refl KeptTables-trans _ _
          (record {
            run = λ st.
                limit-Kept (check st.auth_failure_limiter r.client env.mono env.wall).1 st _
                  (record { same_db = refl });
          })
          (λ _. raise-Does KeptTables KeptTables-refl KeptTables-trans _))

  -- A call whose `dry_run` is not false writes nothing to the tables, if no other request does.
  pub dry_run_writes_nothing :
      (st : ImportState)
      → ((s : ImportState) → (bool_param r.dry_run true s).0 ≢ ok false)
      → ((n : ℕ) (db : Db) → env.between n db ≡ db)
      → (import_listings env r st).1.db ≡ st.db
  unfolding import_listings write_audit
  dry_run_writes_nothing st dry alone =
      let asked = record st { info = ("client", str (or_else r.client "unknown")) ∷ [] } in
      (Does.run
        (handle-Does KeptTables KeptTables-refl KeptTables-trans (λ s i. record { same_db = refl })
          env r (λ n. record { run = λ s. record { same_db = alone n s.db } }) authorize-Keeps
          under_lock-Keeps (λ s e plan. absurd (dry s e)))
        asked).same_db
