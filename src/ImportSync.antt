-- ===== src/ImportSync.antt =====
-- app/core/import_sync.py: one sync of a batch: every record by itself, the plan, its counts, and the
-- writes. A batch is a list of records, `none` where an entry is no object.
pub mod Plan
pub mod Blocked
pub mod Failure
pub mod Apply
pub mod Records
pub mod DryRun
pub mod BoardUrl
pub mod Empty
pub mod Lines
use agent_discovery_board.Prelude.{
  ℕ, zero, suc, ◌+◌, ◌-◌, ◌*◌, ◌/◌, ◌%◌, ◌≤◌, ◌<◌, min, max, String, ◌≡◌, refl, sym, ap, ◌∙◌, ◌≢◌,
  ◌↔◌, ◌⊎◌, inl, inr, Bool, true, false, not, ◌&&◌, ◌||◌, Option, none, some, List, [], ◌∷◌, ◌++◌,
  map, arith, ◌==◌, eq_iff, eq_refl, ltb, leb, eqb, if◌then◌else◌, tests, Bool-cases, Option-cases,
  is_none, is_some, or_else, length, take, drop, keep, any, all, find, length-append,
  length-keep-le, find_sound, find-none, All, str_len, all_chars, any_char, starts_with, is_in,
  le_str, lower, strip, ℤ, pos, negsuc, distance, Float, finite, nan, infinite, Json, null, bool,
  int, float, str, arr, obj, Items, Fields, get_field,
}
use agent_discovery_board.Listing.{Listing}
use agent_discovery_board.Endpoint.{UrlLibrary}
use agent_discovery_board.Models.{ModelLibrary}
use agent_discovery_board.Store.{Db, key_of}
use agent_discovery_board.Imports.{SourceRecord, build_import_row}
use agent_discovery_board.ImportStore.{
  Upsert, inserted, updated, refused, import_upsert, do_not_import_keys, existing_import_listings,
  preview_missing_from_source, mark_missing_from_source,
}

pub record Stats : Type 0 where
  pub dropped_payment_options : ℕ
  pub derived_payment_wallet : ℕ

-- The valid rows, the indices of the rejected entries, and the adaptations.
pub record Validated : Type 0 where
  pub rows : List Listing
  pub rejected : List ℕ
  pub stats : Stats

abbrev pub add_row : SourceRecord → Listing → Validated → Validated
add_row r row v = record {
  rows = row ∷ v.rows;
  rejected = v.rejected;
  stats = record {
    dropped_payment_options =
        v.stats.dropped_payment_options + (length r.payment_options - length row.payment_options);
    derived_payment_wallet =
        v.stats.derived_payment_wallet + (if is_none r.payment_wallet then 1 else 0);
  };
}

abbrev pub reject : ℕ → Validated → Validated
reject i v = record v { rejected = i ∷ v.rejected }

-- `validate_all` from the entry with index `i` on; `ids` draws the id of an entry's row.
unfoldable pub validate_all :
    ModelLibrary → (ℕ → String) → Option String → ℕ → ℕ → List (Option SourceRecord) → Validated
validate_all lib ids source now i [] = record {
  rows = [];
  rejected = [];
  stats = record { dropped_payment_options = 0; derived_payment_wallet = 0 };
}
validate_all lib ids source now i (none ∷ rs) =
    reject i (validate_all lib ids source now (suc i) rs)
validate_all lib ids source now i (some r ∷ rs) =
    let rest = validate_all lib ids source now (suc i) rs in
    elim (build_import_row lib (ids i) source now r) [
      | none ↦ reject i rest
      | some row ↦ add_row r row rest
    ]

abbrev pub of_source : String → Listing → Bool
of_source source r = elim r.source [ none ↦ false | some s ↦ s == source ]

abbrev pub urls_of : List Listing → List String
urls_of = map (λ (r : Listing). r.endpoint_url)

-- set(sources), in the order of `sorted`
unfoldable pub insert_source : String → List String → List String
insert_source s [] = s ∷ []
insert_source s (t ∷ ts) =
    if s == t then t ∷ ts else if le_str s t then s ∷ t ∷ ts else t ∷ insert_source s ts

unfoldable pub sources_of : List Listing → List String
unfolding insert_source
sources_of [] = []
sources_of (r ∷ rs) =
    let rest = sources_of rs in elim r.source [ none ↦ rest | some s ↦ insert_source s rest ]

-- The sources that take part: a given source without a valid record only if that is allowed.
unfoldable pub sources_in_sync : Option String → Bool → List Listing → List String
unfolding sources_of insert_source
sources_in_sync none allow_empty_sync rows = sources_of rows
sources_in_sync (some s) allow_empty_sync rows =
    if allow_empty_sync && not (s == "") then insert_source s (sources_of rows) else sources_of rows

-- The state of the inner loop of `plan_sync`: what is planned for one source.
pub record SourcePlan : Type 0 where
  pub latest : List (String × Listing)
  pub skipped : List Listing
  pub duplicates : ℕ

abbrev pub has_key : String → List (String × Listing) → Bool
has_key key = any (λ (e : String × Listing). e.0 == key)

-- latest[key] = row
unfoldable pub set_latest : String → Listing → List (String × Listing) → List (String × Listing)
set_latest key row [] = (key, row) ∷ []
set_latest key row ((k, old) ∷ rest) =
    if k == key then (k, row) ∷ rest else (k, old) ∷ set_latest key row rest

unfoldable pub plan_row : List String → String → Listing → SourcePlan → SourcePlan
unfolding set_latest
plan_row blocked key row p =
    if is_in key blocked then record p { skipped = p.skipped ++ row ∷ [] } else record p {
      latest = set_latest key row p.latest;
      duplicates = p.duplicates + (if has_key key p.latest then 1 else 0);
    }

unfoldable pub plan_rows : UrlLibrary → List String → List Listing → SourcePlan → SourcePlan
unfolding plan_row
plan_rows urls blocked [] p = p
plan_rows urls blocked (row ∷ rows) p =
    plan_rows urls blocked rows (plan_row blocked (key_of urls row.endpoint_url) row p)

abbrev pub no_plan : SourcePlan
no_plan = record { latest = []; skipped = []; duplicates = 0 }

pub record SyncPlan : Type 0 where
  pub validated : Validated
  pub importable : List Listing
  pub skipped : List Listing
  pub duplicates_in_batch : ℕ
  pub sources : List String
  pub would_mark_missing : List (String × List (String × String))
  pub mark_missing : Bool

-- by_source.get(src, [])
abbrev pub by_source : SyncPlan → String → List Listing
by_source plan source = keep (of_source source) plan.validated.rows

module _ (urls : UrlLibrary) where
  -- One turn of the outer loop of `plan_sync`.
  unfoldable pub plan_source : Db → SyncPlan → String → SyncPlan
  unfolding plan_rows
  plan_source db plan source =
      let rows = by_source plan source in
      let p = plan_rows urls (do_not_import_keys urls source (urls_of rows) db) rows no_plan in
      record plan {
        importable = plan.importable ++ map (λ (e : String × Listing). e.1) p.latest;
        skipped = plan.skipped ++ p.skipped;
        duplicates_in_batch = plan.duplicates_in_batch + p.duplicates;
        would_mark_missing =
            plan.would_mark_missing
            ++ (
              source,
              if plan.mark_missing
                  then preview_missing_from_source urls source (urls_of rows) db
                  else [],
            )
              ∷ [];
      }

  unfoldable pub plan_sources : Db → List String → SyncPlan → SyncPlan
  unfolding plan_source
  plan_sources db [] plan = plan
  plan_sources db (s ∷ ss) plan = plan_sources db ss (plan_source db plan s)

  unfoldable pub plan_sync :
      ModelLibrary
      → (ℕ → String)
      → Option String
      → ℕ
      → (allow_empty_sync mark_missing : Bool) → List (Option SourceRecord)
      → Db
      → SyncPlan
  unfolding plan_sources validate_all sources_in_sync
  plan_sync lib ids source now allow_empty_sync mark_missing records db =
      let v = validate_all lib ids source now 0 records in
      let sources = sources_in_sync source allow_empty_sync v.rows in
      plan_sources db sources (record {
        validated = v;
        importable = [];
        skipped = [];
        duplicates_in_batch = 0;
        sources = sources;
        would_mark_missing = [];
        mark_missing = mark_missing;
      })
