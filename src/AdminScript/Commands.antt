-- ===== src/AdminScript/Commands.antt =====
-- scripts/admin_update_listing.py: the three commands, and the choice between them.
pub mod Effects
pub mod DryRun
pub mod Tables
pub mod Exact
use agent_discovery_board.Prelude.{
  ℕ, ◌+◌, ◌-◌, String, Bool, true, false, not, ◌&&◌, ◌||◌, Option, none, some, List, [], ◌∷◌, ◌++◌,
  ◌==◌, all, any, if◌then◌else◌, is_in, is_some, or_else, eqb, leb, length, keep, map, strip, ℤ,
  pos, negsuc, Json, null, str, lookup,
}
use agent_discovery_board.Listing.{Status, active, inactive, Listing, is_active}
use agent_discovery_board.Endpoint.{normalize_endpoint_url}
use agent_discovery_board.Models.{ListingCreate, validate_create, is_reserved_address}
use agent_discovery_board.Maintenance.{is_test_name}
use agent_discovery_board.Store.{
  Db, Write, wrote, no_row, violation, failed, has_id, others, key_of, update_where,
}
use agent_discovery_board.ImportStore.{purge_batch, is_expired_test}
use agent_discovery_board.AdminScript.{
  Args, Entry, ScriptState, Res, done, refused, unhandled, Run, pure, refuse, escape, ◌>>=◌, ◌>>◌,
  refuse_if, exit_usage, exit_guard, ScriptEnv, Values, parse_pairs, add_unset,
}
use agent_discovery_board.AdminScript.Fields.{value_of, candidate_of, final_of, assign_fields}

abbrev pub or_refuse : {A : Type 0} → Option A → ℕ → Run A
or_refuse none code = refuse code
or_refuse (some a) code = pure a

abbrev only_row : List Listing → Option Listing
only_row [] = none
only_row (r ∷ []) = some r
only_row (r ∷ x ∷ rows) = none

abbrev magnitude : ℤ → ℕ
magnitude (pos n) = n
magnitude (negsuc n) = 0

abbrev is_negative : ℤ → Bool
is_negative (pos n) = false
is_negative (negsuc n) = true

module _ (env : ScriptEnv) (args : Args) where
  abbrev pub others_run : ℕ → Run (Unit {0})
  others_run n st = (done tt, record st { db = env.between n st.db })

  abbrev pub target : String
  target = or_else args.id ""

  -- `_fetch`, with the check that it finds exactly one row
  unfoldable pub fetch_one : Run Listing
  fetch_one st = or_refuse (only_row (keep (has_id target) st.db.listings)) exit_guard st

  -- `_check_expected`
  abbrev pub is_expected : Values → Listing → Bool
  is_expected expected before =
      all (λ (e : String × Json). not (env.differs (value_of e.0 before) e.1)) expected

  -- `_guard_sql`, on the row as it is at the statement
  abbrev pub guard : Values → Listing → Bool
  guard expected r = all (λ (e : String × Json). env.not_distinct (value_of e.0 r) e.1) expected

  abbrev pub all_adapt : Values → Bool
  all_adapt expected = all (λ (e : String × Json). env.adapts e.1) expected

  -- `_confirm`
  unfoldable pub confirm : Run (Unit {0})
  unfolding strip
  confirm = refuse_if (not args.yes && not (strip env.typed == target)) exit_guard

  unfoldable pub append_log : Entry → Run (Unit {0})
  append_log e st = (done tt, record st { log = st.log ++ e ∷ [] })

  abbrev pub deletes : Values → Listing → Bool
  deletes expected r = has_id target r && (not (is_active r.status) && guard expected r)

  abbrev pub without : Values → Db → Db
  without expected db = record db {
    listings = keep (λ (r : Listing). not (deletes expected r)) db.listings;
  }

  -- One row goes, and no other has its id.
  abbrev pub is_exact : Values → Db → Bool
  is_exact expected db =
      eqb (length (keep (deletes expected) db.listings)) 1
      && not (any (has_id target) (without expected db).listings)

  abbrev pub commit_delete : Values → Run (Unit {0})
  commit_delete expected st =
      if is_exact expected st.db
      then (done tt, record st { db = without expected st.db })
      else (refused exit_guard, st)

  -- The DELETE and the look for the row after it, in one transaction that a refusal rolls back.
  unfoldable pub delete_row : Values → Run (Unit {0})
  unfolding value_of
  delete_row expected = if all_adapt expected then commit_delete expected else escape

  unfoldable pub apply_delete : Values → Listing → Run ℕ
  unfolding confirm delete_row append_log
  apply_delete expected before =
      confirm
      >> others_run 2
      >> delete_row expected
      >> append_log (record {
        action = "hard-delete";
        listing_id = args.id;
        deleted_rows = before ∷ [];
        changed = [];
      })
      >> pure 0

  unfoldable pub run_delete : Values → Run ℕ
  unfolding fetch_one apply_delete value_of
  run_delete expected = do
    others_run 1
    before ← fetch_one
    refuse_if (not (is_expected expected before)) exit_guard
    refuse_if (is_active before.status) exit_guard
    if args.apply then apply_delete expected before else pure 0

  -- `_run_purge`
  abbrev age : ℤ
  age = or_else args.older_than (pos env.test_ttl)

  abbrev pub cutoff : ℕ
  cutoff = env.now - magnitude age

  abbrev pub purges : List Listing → Listing → Bool
  purges rows r = is_in r.id (map (λ (x : Listing). x.id) rows) && is_expired_test cutoff r

  unfoldable pub delete_tests : List Listing → Run (Unit {0})
  unfolding append_log
  delete_tests rows st =
      let gone = map (λ (r : Listing). r.id) (keep (purges rows) st.db.listings) in
      append_log
        (record {
          action = "purge-test";
          listing_id = none;
          deleted_rows = keep (λ (r : Listing). is_in r.id gone) rows;
          changed = [];
        })
        (record st {
          db = record st.db {
            listings = keep (λ (r : Listing). not (purges rows r)) st.db.listings;
          };
        })

  abbrev pub apply_purge : List Listing → Run ℕ
  apply_purge rows =
      refuse_if (not args.yes && not (strip env.typed == "PURGE")) exit_guard
      >> others_run 2
      >> delete_tests rows
      >> pure 0

  abbrev pub purge_rows : List Listing → Run ℕ
  purge_rows [] = pure 0
  purge_rows (r ∷ rows) = if args.apply then apply_purge (r ∷ rows) else pure 0

  unfoldable pub run_purge : Run ℕ
  unfolding delete_tests strip purge_batch
  run_purge =
      refuse_if (is_negative age) exit_usage
      >> refuse_if
          (is_negative args.limit
            || not (leb 1 (magnitude args.limit) && leb (magnitude args.limit) 10000))
          exit_usage
      >> others_run 1
      >> (λ st. purge_rows (purge_batch cutoff (magnitude args.limit) st.db) st)

  -- The candidate, valid and with its status, or the refusal.
  abbrev read_status : Json → Option Status
  read_status (str s) =
      if s == "active" then some active else if s == "inactive" then some inactive else none
  read_status _ = none

  abbrev final_row : Listing → Option ListingCreate → Option Status → Option Listing
  final_row before none status = none
  final_row before (some p) none = none
  final_row before (some p) (some status) = some (final_of before p status)

  abbrev validated : Values → Option ListingCreate
  validated candidate = elim (env.read_candidate candidate) [
    | none ↦ none
    | some p ↦ validate_create env.models p
  ]

  abbrev same_bool : Bool → Bool → Bool
  same_bool true b = b
  same_bool false b = not b

  -- From the row and the changes to the final values, or exit code 1.
  unfoldable pub check_change : Values → Listing → Run Listing
  unfolding candidate_of final_of value_of
  check_change changes before =
      let candidate = candidate_of before changes in
      or_refuse
        (final_row before (validated candidate)
          (read_status (or_else (lookup "status" candidate) null)))
        exit_usage
      >>= λ final.
          refuse_if (not (same_bool (is_test_name final.name) before.is_test)) exit_usage
          >> refuse_if (is_reserved_address final.submitted_by) exit_usage
          >> pure final

  -- The names in `diff`.
  unfoldable pub changed_fields : Values → Listing → Listing → List String
  unfolding value_of
  changed_fields changes before final =
      keep (λ f. env.differs (value_of f final) (value_of f before))
        (map (λ (e : String × Json). e.0) changes)

  -- The row of the UPDATE: the fields of the diff, the key if the URL is one of them, and the time.
  unfoldable pub set_fields : List String → Listing → Listing → Listing
  unfolding assign_fields
  set_fields fields final r = record (assign_fields fields final r) {
    endpoint_key =
        if is_in "endpoint_url" fields then key_of env.urls final.endpoint_url else r.endpoint_key;
    updated_at = env.now;
  }

  abbrev pub finish_update : List String → Write → Run (Unit {0})
  finish_update fields (wrote r db) = λ st. (done tt, record st { db = db })
  finish_update fields no_row = refuse exit_guard
  finish_update fields violation = refuse exit_guard
  finish_update fields failed = escape

  abbrev pub commit_update : Values → List String → Listing → Run (Unit {0})
  commit_update expected fields final st =
      finish_update fields (update_where target (guard expected) (set_fields fields final) st.db) st

  -- The UPDATE in its transaction.
  unfoldable pub update_row : Values → List String → Listing → Run (Unit {0})
  unfolding value_of set_fields update_where
  update_row expected fields final =
      if all_adapt expected then commit_update expected fields final else escape

  unfoldable pub apply_update : Values → List String → Listing → Run ℕ
  unfolding confirm update_row append_log
  apply_update expected fields final =
      confirm
      >> others_run 2
      >> update_row expected fields final
      >> append_log
          (record { action = "change"; listing_id = args.id; deleted_rows = []; changed = fields })
      >> pure 0

  abbrev pub finish_change : Values → List String → Listing → Run ℕ
  finish_change expected [] final = pure 0
  finish_change expected (f ∷ fields) final =
      if args.apply then apply_update expected (f ∷ fields) final else pure 0

  unfoldable pub run_update : Values → Values → Run ℕ
  unfolding fetch_one check_change changed_fields apply_update value_of
  run_update expected changes = do
    others_run 1
    before ← fetch_one
    refuse_if (not (is_expected expected before)) exit_guard
    final ← check_change changes before
    finish_change expected (changed_fields changes before final) final

  abbrev is_empty {ℓ} : {A : Type ℓ} → List A → Bool
  is_empty [] = true
  is_empty (x ∷ xs) = false

  abbrev pub run_expected : Values → Run ℕ
  run_expected expected =
      if is_empty expected
      then refuse exit_usage
      else if args.delete
      then (refuse_if (not (is_empty args.sets) || not (is_empty args.unset)) exit_usage
          >> run_delete expected)
      else (or_refuse (parse_pairs env.loads args.sets []) exit_usage >>= λ sets.
          or_refuse (add_unset args.unset sets) exit_usage >>= λ changes.
          refuse_if (is_empty changes) exit_usage >> run_update expected changes)

  -- `_run`
  unfoldable pub run : Run ℕ
  unfolding run_purge run_delete run_update parse_pairs add_unset
  run =
      refuse_if (not env.configured) exit_usage
      >> (if args.purge_test
          then (refuse_if
                (is_some args.id
                  || not (is_empty args.expects)
                  || not (is_empty args.sets)
                  || not (is_empty args.unset)
                  || args.delete)
                exit_usage
              >> run_purge)
          else (or_refuse (parse_pairs env.loads args.expects []) exit_usage >>= run_expected))

  abbrev exit_code : Res ℕ → Option ℕ
  exit_code (done code) = some code
  exit_code (refused code) = some code
  exit_code unhandled = none

  -- `main`: the exit code, and none for a traceback; argparse ends a run without an id with 2.
  unfoldable pub main : ScriptState → Option ℕ × ScriptState
  unfolding run
  main st =
      if not args.purge_test && target == ""
      then (some 2, st)
      else (exit_code (run st).0, (run st).1)
