-- ===== src/ImportSync/Apply.antt =====
-- app/core/import_sync.py: `apply_plan`, the writes of a sync. Every write is committed by itself, so
-- the tables keep what was written before an exception.
use agent_discovery_board.Prelude.{
  ℕ, String, Option, none, some, List, [], ◌∷◌, ◌++◌, if◌then◌else◌,
}
use agent_discovery_board.Listing.{Listing}
use agent_discovery_board.Endpoint.{UrlLibrary}
use agent_discovery_board.Store.{Db}
use agent_discovery_board.ImportStore.{
  Upsert, inserted, updated, refused, import_upsert, mark_missing_from_source,
}
use agent_discovery_board.ImportSync.{SyncPlan, by_source, urls_of}

pub record SyncOutcome : Type 0 where
  pub inserted_rows : List Listing
  pub updated_rows : List Listing
  pub newly_missing : List String

module _ (urls : UrlLibrary) where
  -- The first loop of `apply_plan`; `none` where an upsert raises.
  unfoldable pub apply_rows :
      Option String → List Listing → SyncOutcome → Db → Option SyncOutcome × Db
  apply_rows base [] out db = (some out, db)
  apply_rows base (row ∷ rows) out db = elim (import_upsert urls base row db) [
    | inserted r db' ↦
        apply_rows base rows (record out { inserted_rows = out.inserted_rows ++ r ∷ [] }) db'
    | updated r db' ↦
        apply_rows base rows (record out { updated_rows = out.updated_rows ++ r ∷ [] }) db'
    | refused ↦ (none, db)
  ]

  -- The second loop, over the sources in their order.
  unfoldable pub mark_sources : SyncPlan → ℕ → List String → SyncOutcome → Db → SyncOutcome × Db
  mark_sources plan now [] out db = (out, db)
  mark_sources plan now (s ∷ ss) out db =
      let (ids, db') = mark_missing_from_source urls s (urls_of (by_source plan s)) now db in
      mark_sources plan now ss (record out { newly_missing = out.newly_missing ++ ids }) db'

  abbrev pub finish_plan : SyncPlan → ℕ → Option SyncOutcome × Db → Option SyncOutcome × Db
  finish_plan plan now (none, db) = (none, db)
  finish_plan plan now (some out, db) =
      if plan.mark_missing
      then (let (out', db') = mark_sources plan now plan.sources out db in (some out', db'))
      else (some out, db)

  unfoldable pub apply_plan : SyncPlan → ℕ → Option String → Db → Option SyncOutcome × Db
  unfolding apply_rows mark_sources
  apply_plan plan now base db = finish_plan plan now (
      apply_rows base plan.importable
        (record { inserted_rows = []; updated_rows = []; newly_missing = [] }) db)

  -- The rest of the first loop after one upsert.
  abbrev pub after_upsert :
      Option String → List Listing → SyncOutcome → Db → Upsert → Option SyncOutcome × Db
  after_upsert base rows out db (inserted r db') =
      apply_rows base rows (record out { inserted_rows = out.inserted_rows ++ r ∷ [] }) db'
  after_upsert base rows out db (updated r db') =
      apply_rows base rows (record out { updated_rows = out.updated_rows ++ r ∷ [] }) db'
  after_upsert base rows out db refused = (none, db)
