-- ===== src/ImportSync/DryRun.antt =====
-- app/core/import_sync.py: `dry_run_counts`.
use agent_discovery_board.Prelude.{
  ℕ, ◌+◌, String, Bool, ◌&&◌, Option, none, some, List, [], ◌∷◌, ◌==◌, keep, length, if◌then◌else◌,
}
use agent_discovery_board.Listing.{Listing}
use agent_discovery_board.Endpoint.{UrlLibrary}
use agent_discovery_board.Store.{Db, key_of}
use agent_discovery_board.ImportStore.{existing_import_listings}
use agent_discovery_board.ImportSync.{SyncPlan, of_source, urls_of}

pub record Counts : Type 0 where
  pub added : ℕ
  pub updated : ℕ
  pub claimed_content_preserved : ℕ
  pub stale : ℕ

-- existing[(source, key)], where a source of None is in no entry
abbrev pub Existing : Type 0
Existing = List ((String × String) × Bool)

-- d.update(...) with the keys of one source; a later entry stands first, and is found first.
abbrev tag : String → List (String × Bool) → Existing → Existing
tag source [] existing = existing
tag source ((key, claimed) ∷ es) existing = tag source es (((source, key), claimed) ∷ existing)

unfoldable pub find_existing : Option String → String → Existing → Option Bool
find_existing none key existing = none
find_existing (some source) key [] = none
find_existing (some source) key (((s, k), claimed) ∷ existing) =
    if s == source && k == key then some claimed else find_existing (some source) key existing

abbrev no_counts : Counts
no_counts = record { added = 0; updated = 0; claimed_content_preserved = 0; stale = 0 }

module _ (urls : UrlLibrary) (db : Db) where
  unfoldable pub existing_of : List String → List Listing → Existing → Existing
  existing_of [] rows existing = existing
  existing_of (s ∷ ss) rows existing =
      existing_of ss rows
        (tag s (existing_import_listings urls s (urls_of (keep (of_source s) rows)) db) existing)

  abbrev pub count_row : Option Bool → Counts → Counts
  count_row none c = record c { added = c.added + 1 }
  count_row (some claimed) c = record c {
    updated = c.updated + 1;
    claimed_content_preserved = c.claimed_content_preserved + (if claimed then 1 else 0);
  }

  unfoldable pub count_rows : Existing → List Listing → Counts → Counts
  unfolding find_existing
  count_rows existing [] c = c
  count_rows existing (r ∷ rows) c =
      count_rows existing rows
        (count_row (find_existing r.source (key_of urls r.endpoint_url) existing) c)

  -- SyncPlan.total_missing
  unfoldable pub total_missing : List (String × List (String × String)) → ℕ
  total_missing [] = 0
  total_missing ((s, rows) ∷ rest) = length rows + total_missing rest

  unfoldable pub dry_run_counts : SyncPlan → Counts
  unfolding existing_of count_rows total_missing
  dry_run_counts plan =
      count_rows (existing_of plan.sources plan.importable []) plan.importable
        (record no_counts { stale = total_missing plan.would_mark_missing })
