-- ===== src/AdminImport/Handler.antt =====
-- app/api/routes/admin_import.py: the whole handler. Between its statements other requests write to the
-- tables; what they do to the limiters and the log is not shown.
use agent_discovery_board.Prelude.{
  ℕ, ◌-◌, ◌/◌, String, Bool, true, false, Option, none, some, List, [], ◌∷◌, length, take,
  if◌then◌else◌, or_else, eqb, Json, bool, int, str, pos,
}
use agent_discovery_board.Errors.{
  ApiError, Result, ok, err, crash, api_error, unauthorized, validation_error,
}
use agent_discovery_board.RateLimit.{check}
use agent_discovery_board.ImportSync.{SyncPlan, plan_sync}
use agent_discovery_board.ImportSync.Apply.{SyncOutcome, apply_plan}
use agent_discovery_board.ImportSync.Records.{parse_records, board_template_base}
use agent_discovery_board.ImportSync.DryRun.{Counts, dry_run_counts}
use agent_discovery_board.ImportAuth.{key_matches, bearer_token, audit}
use agent_discovery_board.AdminImport.{
  ImportState, Run, pure, raise, escape, ◌>>=◌, ◌>>◌, note, limit, under_lock, Request, Env,
  bool_param, read_body, or_raise, ImportResult, sent_source, json_source, map_records,
}

abbrev pub unsigned_error : ApiError
unsigned_error = api_error 401 unauthorized

abbrev pub bad_batch : ApiError
bad_batch = api_error 422 validation_error

abbrev pub is_authorized : Env → Request → Bool
is_authorized env r = key_matches env.sha256_hex env.import_key (bearer_token r.authorization)

-- _MAX_REJECTED_DETAILS
abbrev max_rejected_details : ℕ
max_rejected_details = 50

module _ (env : Env) (r : Request) where
  -- Other requests, before the n-th statement.
  abbrev pub others_run : ℕ → Run (Unit {0})
  others_run n st = (ok tt, record st { db = env.between n st.db })

  unfoldable pub limit_failures : Run (Unit {0})
  limit_failures st =
      let (l, out) = check st.auth_failure_limiter r.client env.mono env.wall in
      limit out (record st { auth_failure_limiter = l })

  unfoldable pub limit_imports : Run (Unit {0})
  limit_imports st =
      let (l, out) = check st.import_limiter r.client env.mono env.wall in
      limit out (record st { import_limiter = l })

  unfoldable pub authorize : Run (Unit {0})
  unfolding limit_failures limit_imports
  authorize =
      if is_authorized env r then limit_imports else (limit_failures >> raise unsigned_error)

  unfoldable pub read_records : Run (List Json)
  unfolding read_body note
  read_records = do
    body ← read_body env.max_body_bytes r
    text ← or_raise (env.decode_utf8 body) bad_batch
    records ← or_raise (parse_records env.loads text) bad_batch
    if eqb (length records) 0
        then raise bad_batch
        else (note ("records", int (pos (length records))) >> pure records)

  abbrev pub plan_of : Bool → Option String → List Json → Run SyncPlan
  plan_of mark_missing source records st = (
    ok (
        plan_sync env.urls env.models env.new_ids source env.now false mark_missing
          (map_records env.read_record records) st.db),
    st,
  )

  abbrev pub count_plan : SyncPlan → Run Counts
  count_plan plan st = (ok (dry_run_counts env.urls st.db plan), st)

  abbrev pub raised : Option SyncOutcome → Run SyncOutcome
  raised none = escape
  raised (some out) = pure out

  unfoldable pub write_plan : SyncPlan → Run SyncOutcome
  write_plan plan st =
      let (out, db) =
        apply_plan env.urls plan env.now (board_template_base env.service_base_url) st.db in
      raised out (record st { db = db })

  abbrev written_counts : Counts → SyncOutcome → Counts
  written_counts c out = record c {
    added = length out.inserted_rows;
    updated = length out.updated_rows;
    stale = length out.newly_missing;
  }

  unfoldable pub run_plan : Bool → SyncPlan → Counts → Run Counts
  unfolding write_plan
  run_plan true plan counts = pure counts
  run_plan false plan counts =
      others_run 2 >> (write_plan plan >>= λ out. pure (written_counts counts out))

  unfoldable pub report : Bool → Bool → List Json → SyncPlan → Counts → ImportResult
  report dry_run mark_missing records plan c = record {
    dry_run = dry_run;
    sources = plan.sources;
    records = length records;
    valid = length plan.validated.rows;
    added = c.added;
    updated = c.updated;
    stale = c.stale;
    rejected = length plan.validated.rejected;
    skipped_do_not_import = length plan.skipped;
    claimed_content_preserved = c.claimed_content_preserved;
    duplicates_in_batch = plan.duplicates_in_batch;
    mark_missing = mark_missing;
    rejected_details = take max_rejected_details plan.validated.rejected;
    rejected_details_omitted = length plan.validated.rejected - max_rejected_details;
  }

  unfoldable pub note_result : ImportResult → Run (Unit {0})
  note_result x st = (
    ok tt,
    record st {
      info =
          ("valid", int (pos x.valid))
          ∷ ("added", int (pos x.added))
          ∷ ("updated", int (pos x.updated))
          ∷ ("stale", int (pos x.stale))
          ∷ ("rejected", int (pos x.rejected))
          ∷ ("skipped_do_not_import", int (pos x.skipped_do_not_import))
          ∷ ("claimed_content_preserved", int (pos x.claimed_content_preserved))
          ∷ st.info;
    },
  )

  unfoldable pub sync_body : Bool → Bool → Option String → Run ImportResult
  unfolding read_records run_plan report note_result
  sync_body dry_run mark_missing source = do
    records ← read_records
    others_run 0
    plan ← plan_of mark_missing source records
    others_run 1
    counts ← count_plan plan
    final ← run_plan dry_run plan counts
    let x = report dry_run mark_missing records plan final
    note_result x
    pure x

  unfoldable pub note_parameters : Bool → Bool → Option String → Run (Unit {0})
  note_parameters dry_run mark_missing source st = (
    ok tt,
    record st {
      info =
          ("dry_run", bool dry_run)
          ∷ ("mark_missing", bool mark_missing)
          ∷ ("source", json_source source)
          ∷ st.info;
    },
  )

  -- `_handle`
  unfoldable pub handle : Run ImportResult
  unfolding authorize bool_param note_parameters under_lock sync_body
  handle = do
    authorize
    dry_run ← bool_param r.dry_run true
    mark_missing ← bool_param r.mark_missing true
    let source = sent_source r.source
    note_parameters dry_run mark_missing source
    under_lock (sync_body dry_run mark_missing source)

  -- `_OUTCOME_BY_STATUS`
  unfoldable pub outcome_by_status : ℕ → String
  outcome_by_status status =
      if eqb status 401
      then "unauthorized"
      else if eqb status 409
      then "busy"
      else if eqb status 413
      then "too_large"
      else if eqb status 422
      then "bad_batch"
      else if eqb status 429
      then "rate_limited"
      else "refused"

  abbrev pub outcome_of : Result ImportResult → String
  outcome_of (ok x) = if x.dry_run then "dry_run" else "applied"
  outcome_of (err e) = outcome_by_status e.status_code
  outcome_of crash = "error"

  abbrev pub status_of : Result ImportResult → ℕ
  status_of (ok x) = 200
  status_of (err e) = e.status_code
  status_of crash = 500

  abbrev duration : ℕ
  duration = (env.ended - env.mono) / 1000

  -- What `audit` is called with.
  abbrev pub audited : Result ImportResult → List (String × Json) → List (String × Json)
  audited out info =
      ("outcome", str (outcome_of out))
      ∷ ("status", int (pos (status_of out)))
      ∷ ("duration_ms", int (pos duration))
      ∷ info

  unfoldable pub write_audit : Result ImportResult → ImportState → ImportState
  unfolding outcome_by_status
  write_audit out st = record st { audit_log = audit env.ts (audited out st.info) ∷ st.audit_log }

  -- `import_listings`: `crash` is re-raised, and becomes a 500.
  unfoldable pub import_listings : Run ImportResult
  unfolding handle write_audit
  import_listings st =
      let (out, st') =
        handle (record st { info = ("client", str (or_else r.client "unknown")) ∷ [] }) in
      (out, write_audit out st')
