-- ===== src/ImportSync/Empty.antt =====
-- app/core/import_sync.py: a batch that holds no valid record.
use agent_discovery_board.Prelude.{
  ℕ, String, ◌≡◌, refl, Bool, false, Option, none, some, List, [], arith,
}
use agent_discovery_board.Endpoint.{UrlLibrary}
use agent_discovery_board.Models.{ModelLibrary}
use agent_discovery_board.Store.{Db}
use agent_discovery_board.Imports.{SourceRecord}
use agent_discovery_board.ImportSync.{
  validate_all, sources_of, sources_in_sync, plan_sources, plan_sync,
}
use agent_discovery_board.ImportSync.Apply.{apply_plan, apply_rows, mark_sources}

no_sources : (source : Option String) → sources_in_sync source false [] ≡ []
unfolding sources_in_sync sources_of
no_sources none = refl
no_sources (some s) = refl

-- A sync of a batch without a valid record, that may not be empty, writes nothing and marks no row,
-- whatever source is named: an empty or wholly rejected upload says nothing of a source.
pub empty_batch_writes_nothing :
    (urls : UrlLibrary) (lib : ModelLibrary) (ids : ℕ → String) (source base : Option String)
    (now : ℕ) (mark_missing : Bool) (records : List (Option SourceRecord)) (db db' : Db)
    → (validate_all lib ids source now 0 records).rows ≡ []
    → apply_plan urls (plan_sync urls lib ids source now false mark_missing records db) now base db'
      ≡ (some (record { inserted_rows = []; updated_rows = []; newly_missing = [] }), db')
unfolding plan_sync plan_sources apply_plan apply_rows mark_sources
empty_batch_writes_nothing urls lib ids source base now mark_missing records db db' e =
    let s = no_sources source in rw (e, s) (ground arith)
