-- ===== src/AdminImport/Trail.antt =====
-- app/api/routes/admin_import.py: the lock, the audit log and the tables around one call.
use agent_discovery_board.Prelude.{
  String, ◌≡◌, refl, sym, ap, ◌∙◌, inl, inr, Bool, true, false, Option, none, some, List, [], ◌∷◌,
  arith, Json, str, int, pos, lookup, All, all, is_in, or_else, Bool-cases,
}
use agent_discovery_board.Errors.{Result}
use agent_discovery_board.RateLimit.{Outcome, served, daily_limit, too_many, check}
use agent_discovery_board.ImportSync.{SyncPlan}
use agent_discovery_board.ImportSync.Apply.{SyncOutcome, apply_plan}
use agent_discovery_board.ImportSync.Records.{board_template_base}
use agent_discovery_board.ImportAuth.{audit_fields, audit, pick_fields, add_field, is_null}
use agent_discovery_board.AdminImport.{
  ImportState, Run, limit, locked, under_lock, Request, Env, ImportResult,
}
use agent_discovery_board.AdminImport.Handler.{
  is_authorized, limit_failures, limit_imports, authorize, write_plan, raised, handle, audited,
  outcome_of, status_of, write_audit, import_listings,
}
use agent_discovery_board.AdminImport.Effects.{Does, handle-Does, Does-bind, if-Does, raise-Does}

All-all : (p : String → Bool) (xs : List String) → all p xs ≡ true → All (λ x. p x ≡ true) xs
All-all p [] e = tt
All-all p (x ∷ xs) e = (ground arith, All-all p xs (ground arith))

-- An entry's keys are among the names that are picked.
pick_fields-allowed :
    (allowed names : List String) (fields : List (String × Json))
    → All (λ name. is_in name allowed ≡ true) names
    → All (λ (f : String × Json). is_in f.0 allowed ≡ true) (pick_fields names fields)
unfolding pick_fields
pick_fields-allowed allowed [] fields h = tt
pick_fields-allowed allowed (name ∷ names) fields (here, h) =
    add_field-allowed name (lookup name fields) (pick_fields names fields) here
      (pick_fields-allowed allowed names fields h)
  where
    add_field-allowed :
        (name : String) (v : Option Json) (entry : List (String × Json))
        → is_in name allowed ≡ true
        → All (λ (f : String × Json). is_in f.0 allowed ≡ true) entry
        → All (λ (f : String × Json). is_in f.0 allowed ≡ true) (add_field name v entry)
    add_field-allowed name none entry i h = h
    add_field-allowed name (some v) entry i h = elim (Bool-cases (is_null v)) [
      | inl e ↦ rw e h
      | inr e ↦ rw e (i, h)
    ]

-- The lock and the log are as before.
record Kept (s t : ImportState) : Type 0 where
  same_lock : t.running ≡ s.running
  same_log : t.audit_log ≡ s.audit_log

Kept-refl : (s : ImportState) → Kept s s
Kept-refl s = record { same_lock = refl; same_log = refl }

Kept-trans : (s t u : ImportState) → Kept s t → Kept t u → Kept s u
Kept-trans s t u p q = record {
  same_lock = q.same_lock ∙ p.same_lock;
  same_log = q.same_log ∙ p.same_log;
}

abbrev Keeps : {A : Type 0} → Run A → Type 0
Keeps = Does Kept Kept-refl Kept-trans

locked-Kept :
    {A : Type 0} (m : Run A) (st : ImportState) (b : Bool)
    → Keeps m
    → st.running ≡ b
    → Kept st (locked b m st).1
locked-Kept m st true h e = Kept-refl st
locked-Kept m st false h e = record {
  same_lock = sym e;
  same_log = (h.run (record st { running = true })).same_log;
}

under_lock-Keeps : {A : Type 0} (m : Run A) → Keeps m → Keeps (under_lock m)
unfolding under_lock
under_lock-Keeps m h = record { run = λ st. locked-Kept m st st.running h refl }

limit-Kept : (out : Outcome) (s t : ImportState) → Kept s t → Kept s (limit out t).1
limit-Kept served s t k = k
limit-Kept (daily_limit n) s t k = k
limit-Kept (too_many n) s t k = k

module _ (env : Env) (r : Request) where
  limit_imports-Keeps : Keeps (limit_imports env r)
  unfolding limit_imports
  limit_imports-Keeps = record {
    run = λ st.
        limit-Kept (check st.import_limiter r.client env.mono env.wall).1 st _
          (record { same_lock = refl; same_log = refl });
  }

  limit_failures-Keeps : Keeps (limit_failures env r)
  unfolding limit_failures
  limit_failures-Keeps = record {
    run = λ st.
        limit-Kept (check st.auth_failure_limiter r.client env.mono env.wall).1 st _
          (record { same_lock = refl; same_log = refl });
  }

  authorize-Keeps : Keeps (authorize env r)
  unfolding authorize
  authorize-Keeps =
      if-Does Kept Kept-refl Kept-trans (is_authorized env r) _ _ limit_imports-Keeps (
        Does-bind Kept Kept-refl Kept-trans _ _ limit_failures-Keeps
          (λ _. raise-Does Kept Kept-refl Kept-trans _))

  raised_state : (out : Option SyncOutcome) (t : ImportState) → (raised env r out t).1 ≡ t
  raised_state none t = refl
  raised_state (some out) t = refl

  write_plan-Keeps : (plan : SyncPlan) → Keeps (write_plan env r plan)
  unfolding write_plan
  write_plan-Keeps plan = record {
    run = λ st.
        let (out, db) =
          apply_plan env.urls plan env.now (board_template_base env.service_base_url) st.db in
        let k : Kept st (record st { db = db }) = record { same_lock = refl; same_log = refl } in
        rw (raised_state out (record st { db = db })) k;
  }

  handle-Keeps : Keeps (handle env r)
  handle-Keeps =
      handle-Does Kept Kept-refl Kept-trans (λ st i. record { same_lock = refl; same_log = refl })
        env r (λ n. record { run = λ st. record { same_lock = refl; same_log = refl } })
        authorize-Keeps under_lock-Keeps (λ st e plan. write_plan-Keeps plan)

  -- A line that tells the call's outcome and status, and has no field beside those of the list.
  pub record IsAudited (out : Result ImportResult) (entry : List (String × Json)) : Type 0 where
    pub outcome : lookup "outcome" entry ≡ some (str (outcome_of env r out))
    pub status : lookup "status" entry ≡ some (int (pos (status_of env r out)))
    pub allowed :
        All (λ (f : String × Json). is_in f.0 ("event" ∷ "ts" ∷ audit_fields) ≡ true) entry

  audit-IsAudited :
      (out : Result ImportResult) (info : List (String × Json))
      → IsAudited out (audit env.ts (audited env r out info))
  unfolding audit lookup
  audit-IsAudited out info =
      let allowed : List String = "event" ∷ "ts" ∷ audit_fields in
      record {
        outcome = refl;
        status = refl;
        allowed = (
          refl,
          (
            refl,
            pick_fields-allowed allowed audit_fields (audited env r out info)
                (All-all (λ n. is_in n allowed) audit_fields refl),
          ),
        );
      }

  -- Every call that reaches the handler of the import endpoint, past the limit on bodies, however it
  -- ends, leaves the lock as it found it and adds
  -- exactly one line to the audit log, which tells its outcome and status and has no field beside
  -- those of `_AUDIT_FIELDS`, the event and the time.
  pub import-IsAudited :
      (st : ImportState)
      → let (out, st') = import_listings env r st in
        (st'.running ≡ st.running)
        × (entry : List (String × Json)) × (st'.audit_log ≡ entry ∷ st.audit_log)
        × IsAudited out entry
  unfolding import_listings write_audit
  import-IsAudited st =
      let asked = record st { info = ("client", str (or_else r.client "unknown")) ∷ [] } in
      let k = handle-Keeps.run asked in
      let (out, st') = handle env r asked in
      let entry : List (String × Json) = audit env.ts (audited env r out st'.info) in
      (k.same_lock, entry, ap (λ l. entry ∷ l) k.same_log, audit-IsAudited out st'.info)
