-- ===== src/ImportSync/Plan.antt =====
-- app/core/import_sync.py: what `validate_all` and `plan_sync` do with the records of a batch.
use agent_discovery_board.Prelude.{
  ℕ, suc, ◌+◌, String, ◌≡◌, refl, ap, inl, inr, Option, none, some, List, [], ◌∷◌, map, arith,
  if◌then◌else◌, Bool-cases, length, length-append, is_in,
}
use agent_discovery_board.Listing.{Listing}
use agent_discovery_board.Endpoint.{UrlLibrary}
use agent_discovery_board.Models.{ModelLibrary}
use agent_discovery_board.Store.{Db, key_of}
use agent_discovery_board.Imports.{SourceRecord}
use agent_discovery_board.ImportStore.{do_not_import_keys}
use agent_discovery_board.ImportSync.{
  validate_all, SourcePlan, SyncPlan, set_latest, has_key, plan_row, plan_rows, no_plan, by_source,
  urls_of, plan_source, plan_sources,
}

-- Every entry of a batch is accounted for: it makes a row or it is rejected.
pub validate_all-accounts :
    (lib : ModelLibrary) (ids : ℕ → String) (source : Option String) (now i : ℕ)
    (records : List (Option SourceRecord))
    → let v = validate_all lib ids source now i records in
      length v.rows + length v.rejected ≡ length records
unfolding validate_all
validate_all-accounts lib ids source now i [] = refl
validate_all-accounts lib ids source now i (none ∷ rs) =
    omega (arith, validate_all-accounts lib ids source now (suc i) rs)
validate_all-accounts lib ids source now i (some r ∷ rs) =
    ground (arith, validate_all-accounts lib ids source now (suc i) rs)

length-set_latest :
    (key : String) (row : Listing) (es : List (String × Listing))
    → length (set_latest key row es) + (if has_key key es then 1 else 0) ≡ length es + 1
unfolding set_latest
length-set_latest key row [] = refl
length-set_latest key row ((k, old) ∷ es) = ground (arith, length-set_latest key row es)

abbrev size : SourcePlan → ℕ
size p = length p.latest + length p.skipped + p.duplicates

size-plan_row :
    (blocked : List String) (key : String) (row : Listing) (p : SourcePlan)
    → size (plan_row blocked key row p) ≡ size p + 1
unfolding plan_row
size-plan_row blocked key row p = elim (Bool-cases (is_in key blocked)) [
  | inl e ↦ rw e (omega (arith, length-append p.skipped (row ∷ [])))
  | inr e ↦ rw e (omega (arith, length-set_latest key row p.latest))
]

size-plan_rows :
    (urls : UrlLibrary) (blocked : List String) (rows : List Listing) (p : SourcePlan)
    → size (plan_rows urls blocked rows p) ≡ size p + length rows
unfolding plan_rows
size-plan_rows urls blocked [] p = omega arith
size-plan_rows urls blocked (row ∷ rows) p =
    let key = key_of urls row.endpoint_url in
    omega (
      arith,
      size-plan_rows urls blocked rows (plan_row blocked key row p),
      size-plan_row blocked key row p,
    )

-- How many valid records the sources of a list have, and how many a plan has dealt with.
abbrev pub total : SyncPlan → List String → ℕ
total plan [] = 0
total plan (s ∷ ss) = length (by_source plan s) + total plan ss

abbrev pub planned : SyncPlan → ℕ
planned plan = length plan.importable + length plan.skipped + plan.duplicates_in_batch

length-map : {A B : Type 0} (f : A → B) (xs : List A) → length (map f xs) ≡ length xs
length-map f [] = refl
length-map f (x ∷ xs) = ap suc (length-map f xs)

planned-plan_source :
    (urls : UrlLibrary) (db : Db) (s : String) (plan : SyncPlan)
    → planned (plan_source urls db plan s) ≡ planned plan + length (by_source plan s)
unfolding plan_source
planned-plan_source urls db s plan =
    let rows = by_source plan s in
    let p = plan_rows urls (do_not_import_keys urls s (urls_of rows) db) rows no_plan in
    omega (
      arith,
      length-append plan.importable (map (λ (e : String × Listing). e.1) p.latest),
      length-map (λ (e : String × Listing). e.1) p.latest,
      length-append plan.skipped p.skipped,
      size-plan_rows urls (do_not_import_keys urls s (urls_of rows) db) rows no_plan,
    )

total-plan_source :
    (urls : UrlLibrary) (db : Db) (s : String) (plan : SyncPlan) (ss : List String)
    → total (plan_source urls db plan s) ss ≡ total plan ss
unfolding plan_source
total-plan_source urls db s plan [] = refl
total-plan_source urls db s plan (t ∷ ts) =
    ap (λ n. length (by_source plan t) + n) (total-plan_source urls db s plan ts)

-- Every valid record of the sources that take part is written, or skipped as one that must not be
-- imported, or counted as a duplicate in the batch: none is lost.
pub plan_sources-accounts :
    (urls : UrlLibrary) (db : Db) (sources : List String) (plan : SyncPlan)
    → planned (plan_sources urls db sources plan) ≡ planned plan + total plan sources
unfolding plan_sources plan_source
plan_sources-accounts urls db [] plan = omega arith
plan_sources-accounts urls db (s ∷ ss) plan =
    let next = plan_source urls db plan s in
    omega (
      arith,
      plan_sources-accounts urls db ss next,
      planned-plan_source urls db s plan,
      total-plan_source urls db s plan ss,
    )
