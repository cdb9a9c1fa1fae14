-- ===== src/AdminScript/Commands/Tables.antt =====
-- scripts/admin_update_listing.py: what a run does to the tables if its statements do it, for any relation
-- of tables that statements in a row keep.
use agent_discovery_board.Prelude.{
  ℕ, ◌≡◌, refl, Bool, true, false, not, List, [], ◌∷◌, if◌then◌else◌, keep, String,
}
use agent_discovery_board.Listing.{Listing}
use agent_discovery_board.Store.{Db, Write, wrote, no_row, violation, failed, update_where}
use agent_discovery_board.AdminScript.{
  Args, Entry, ScriptState, Res, done, refused, exit_guard, escape, Run, ScriptEnv, Values,
}
use agent_discovery_board.AdminScript.Commands.{
  all_adapt, commit_delete, commit_update, is_exact, without, target, guard, purges, confirm,
  others_run, append_log, delete_row, apply_delete, delete_tests, purge_rows, set_fields,
  finish_update, update_row, apply_update, main,
}
use agent_discovery_board.AdminScript.Commands.Effects.{
  Does, pure-Does, if-Does, refuse_if-Does, bind-Does, main-Does,
}

module _ (env : ScriptEnv) (args : Args) (D : Db → Db → Type 0) (same : (db : Db) → D db db)
    (trans : (a b c : Db) → D a b → D b c → D a c)
    (between : (n : ℕ) (db : Db) → D db (env.between n db))
    (removes : args.purge_test ≡ false
      → (expected : Values) (db : Db) → D db (without env args expected db))
    (removes_tests : args.purge_test ≡ true
      → (rows : List Listing) (db : Db)
      → D db (record db {
        listings = keep (λ (r : Listing). not (purges env args rows r)) db.listings;
      }))
    (updates : args.purge_test ≡ false
      → (expected : Values) (fields : List String) (final r : Listing) (db db' : Db)
      → update_where
          (target env args)
          (guard env args expected)
          (set_fields env args fields final)
          db
        ≡ wrote r db'
      → D db db') where
  abbrev R : ScriptState → ScriptState → Type 0
  R s t = D s.db t.db

  abbrev same_state : (s : ScriptState) → R s s
  same_state s = same s.db

  abbrev trans_state : (s t u : ScriptState) → R s t → R t u → R s u
  trans_state s t u = trans s.db t.db u.db

  abbrev Steps : {A : Type 0} → Run A → Type 0
  Steps = Does R same_state trans_state

  if-state :
      {A : Type 0} (b : Bool) (st : ScriptState) (m n : Res A × ScriptState)
      → R st m.1
      → R st n.1
      → R st (if b then m else n).1
  if-state true st m n h k = h
  if-state false st m n h k = k

  append_log-Steps : (e : Entry) → Steps (append_log env args e)
  unfolding append_log
  append_log-Steps e = record { effect = λ st. same st.db }

  others-Steps : (n : ℕ) → Steps (others_run env args n)
  others-Steps n = record { effect = λ st. between n st.db }

  confirm-Steps : Steps (confirm env args)
  unfolding confirm
  confirm-Steps = refuse_if-Does R same_state trans_state _ _

  delete_row-Steps :
      args.purge_test ≡ false → (expected : Values) → Steps (delete_row env args expected)
  unfolding delete_row
  delete_row-Steps real expected =
      if-Does R same_state trans_state (all_adapt env args expected)
        (commit_delete env args expected) escape
        (record {
          effect = λ st.
              if-state (is_exact env args expected st.db) st
                (done tt, record st { db = without env args expected st.db })
                (refused exit_guard, st) (removes real expected st.db) (same st.db);
        })
        (record { effect = same_state })

  apply_delete-Steps :
      args.purge_test ≡ false
      → (expected : Values) (before : Listing) → Steps (apply_delete env args expected before)
  unfolding apply_delete
  apply_delete-Steps real expected before =
      bind-Does R same_state trans_state _ _
        (bind-Does R same_state trans_state _ _
          (bind-Does R same_state trans_state _ _
            (bind-Does R same_state trans_state _ _ confirm-Steps (λ _. others-Steps 2))
            (λ _. delete_row-Steps real expected))
          (λ _. append_log-Steps _))
        (λ _. pure-Does R same_state trans_state 0)

  finish-Steps :
      (fields : List String) (st : ScriptState) (w : Write)
      → ((r : Listing) (db' : Db) → w ≡ wrote r db' → D st.db db')
      → R st (finish_update env args fields w st).1
  finish-Steps fields st (wrote r db') h = h r db' refl
  finish-Steps fields st no_row h = same st.db
  finish-Steps fields st violation h = same st.db
  finish-Steps fields st failed h = same st.db

  update_row-Steps :
      args.purge_test ≡ false
      → (expected : Values) (fields : List String) (final : Listing)
      → Steps (update_row env args expected fields final)
  unfolding update_row
  update_row-Steps real expected fields final =
      if-Does R same_state trans_state (all_adapt env args expected)
        (commit_update env args expected fields final) escape
        (record {
          effect = λ st.
              finish-Steps fields st _
                (λ r db' e. updates real expected fields final r st.db db' e);
        })
        (record { effect = same_state })

  apply_update-Steps :
      args.purge_test ≡ false
      → (expected : Values) (fields : List String) (final : Listing)
      → Steps (apply_update env args expected fields final)
  unfolding apply_update
  apply_update-Steps real expected fields final =
      bind-Does R same_state trans_state _ _
        (bind-Does R same_state trans_state _ _
          (bind-Does R same_state trans_state _ _
            (bind-Does R same_state trans_state _ _ confirm-Steps (λ _. others-Steps 2))
            (λ _. update_row-Steps real expected fields final))
          (λ _. append_log-Steps _))
        (λ _. pure-Does R same_state trans_state 0)

  delete_tests-Steps :
      args.purge_test ≡ true → (rows : List Listing) → Steps (delete_tests env args rows)
  unfolding delete_tests append_log
  delete_tests-Steps purge rows = record { effect = λ st. removes_tests purge rows st.db }

  purge-Steps : args.purge_test ≡ true → (rows : List Listing) → Steps (purge_rows env args rows)
  purge-Steps purge [] = pure-Does R same_state trans_state 0
  purge-Steps purge (r ∷ rows) =
      if-Does R same_state trans_state args.apply _ _
        (bind-Does R same_state trans_state _ _
          (bind-Does R same_state trans_state _ _
            (bind-Does R same_state trans_state _ _ (refuse_if-Does R same_state trans_state _ _)
              (λ _. others-Steps 2))
            (λ _. delete_tests-Steps purge (r ∷ rows)))
          (λ _. pure-Does R same_state trans_state 0))
        (pure-Does R same_state trans_state 0)

  -- A whole run.
  pub main-Steps : (st : ScriptState) → D st.db (main env args st).1.db
  main-Steps =
      main-Does R same_state trans_state env args others-Steps
        (λ real expected before.
          if-Does R same_state trans_state args.apply _ _ (apply_delete-Steps real expected before)
            (pure-Does R same_state trans_state 0))
        purge-Steps
        (λ real expected fields final.
          if-Does R same_state trans_state args.apply _ _
            (apply_update-Steps real expected fields final) (pure-Does R same_state trans_state 0))
