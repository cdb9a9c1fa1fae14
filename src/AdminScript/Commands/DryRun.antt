-- ===== src/AdminScript/Commands/DryRun.antt =====
-- scripts/admin_update_listing.py: a run without --apply.
use agent_discovery_board.Prelude.{ℕ, ◌≡◌, refl, ◌∙◌, false, List, [], ◌∷◌, if◌then◌else◌}
use agent_discovery_board.Listing.{Listing}
use agent_discovery_board.Store.{Db}
use agent_discovery_board.AdminScript.{Args, ScriptState, Run, pure, ScriptEnv}
use agent_discovery_board.AdminScript.Commands.{purge_rows, main}
use agent_discovery_board.AdminScript.Commands.Effects.{Does, pure-Does, main-Does}

-- The tables and the log are as before.
pub record Kept (s t : ScriptState) : Type 0 where
  pub same_db : t.db ≡ s.db
  pub same_log : t.log ≡ s.log

Kept-refl : (s : ScriptState) → Kept s s
Kept-refl s = record { same_db = refl; same_log = refl }

Kept-trans : (s t u : ScriptState) → Kept s t → Kept t u → Kept s u
Kept-trans s t u p q = record {
  same_db = q.same_db ∙ p.same_db;
  same_log = q.same_log ∙ p.same_log;
}

abbrev Keeps : {A : Type 0} → Run A → Type 0
Keeps = Does Kept Kept-refl Kept-trans

module _ (args : Args) (dry : args.apply ≡ false) where
  unapplied : (m : Run ℕ) → Keeps (if args.apply then m else pure 0)
  unapplied m = rw dry (pure-Does Kept Kept-refl Kept-trans 0)

  purge-Keeps : (env : ScriptEnv) (rows : List Listing) → Keeps (purge_rows env args rows)
  purge-Keeps env [] = pure-Does Kept Kept-refl Kept-trans 0
  purge-Keeps env (r ∷ rows) = unapplied _

-- Without --apply a run leaves the tables and the log as they are, whatever its other arguments and
-- however it ends, if no one else writes meanwhile.
pub main-Kept :
    (env : ScriptEnv) (args : Args) (st : ScriptState)
    → args.apply ≡ false
    → ((n : ℕ) (db : Db) → env.between n db ≡ db)
    → Kept st (main env args st).1
main-Kept env args st dry alone =
    main-Does Kept Kept-refl Kept-trans env args
      (λ n. record { effect = λ st. record { same_db = alone n st.db; same_log = refl } })
      (λ real expected before. unapplied args dry _) (λ purge rows. purge-Keeps args dry env rows)
      (λ real expected fields final. unapplied args dry _) st
