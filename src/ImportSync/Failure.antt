-- ===== src/ImportSync/Failure.antt =====
-- app/core/import_sync.py: the tables that `apply_plan` leaves, also where it raises part-way.
use agent_discovery_board.Prelude.{
  ℕ, String, ◌≡◌, refl, sym, ap, inl, inr, true, Option, none, some, List, [], ◌∷◌, ◌++◌, map,
  arith, Bool-cases, is_some, keep, any, find, All, is_in,
}
use agent_discovery_board.Listing.{Listing}
use agent_discovery_board.Endpoint.{UrlLibrary}
use agent_discovery_board.Store.{Db, key_of, has_id, others, replace, insert, clash, same_import}
use agent_discovery_board.Store.Writes.{IsConsistent}
use agent_discovery_board.ImportStore.{
  Upsert, inserted, updated, refused, upsert, refresh, import_upsert, template_for,
}
use agent_discovery_board.ImportStore.Keeps.{
  import_upsert-IsConsistent, mark-IsConsistent, table_after,
}
use agent_discovery_board.ImportSync.{SyncPlan}
use agent_discovery_board.ImportSync.Apply.{
  SyncOutcome, apply_rows, after_upsert, finish_plan, mark_sources, apply_plan,
}

-- The ids of the rows that are marked missing from their source.
abbrev pub missing_ids : Db → List String
missing_ids db =
    map (λ (r : Listing). r.id)
      (keep (λ (r : Listing). is_some r.missing_from_source_since) db.listings)

abbrev ids_of : List Listing → List String
ids_of rs =
    map (λ (r : Listing). r.id) (keep (λ (r : Listing). is_some r.missing_from_source_since) rs)

module _ (urls : UrlLibrary) where
  apply_rows-IsConsistent :
      (base : Option String) (rows : List Listing) (out : SyncOutcome) (db : Db)
      → IsConsistent urls db
      → IsConsistent urls (apply_rows urls base rows out db).1
  unfolding apply_rows
  apply_rows-IsConsistent base [] out db c = c
  apply_rows-IsConsistent base (row ∷ rows) out db c =
      go (import_upsert urls base row db) (import_upsert-IsConsistent urls base row db c)
        (λ o d k. apply_rows-IsConsistent base rows o d k)
    where
      go :
          (u : Upsert)
          → IsConsistent urls (table_after db u)
          → ((o : SyncOutcome) (d : Db)
              → IsConsistent urls d
              → IsConsistent urls (apply_rows urls base rows o d).1)
          → IsConsistent urls (after_upsert urls base rows out db u).1
      go (inserted r db') k next = next _ db' k
      go (updated r db') k next = next _ db' k
      go refused k next = k

  mark_sources-IsConsistent :
      (plan : SyncPlan) (now : ℕ) (ss : List String) (out : SyncOutcome) (db : Db)
      → IsConsistent urls db
      → IsConsistent urls (mark_sources urls plan now ss out db).1
  unfolding mark_sources
  mark_sources-IsConsistent plan now [] out db c = c
  mark_sources-IsConsistent plan now (s ∷ ss) out db c =
      mark_sources-IsConsistent plan now ss _ _ (mark-IsConsistent urls s _ now db c)

  -- A sync of any plan keeps the tables consistent, also where it raises after some of its writes.
  pub apply_plan-IsConsistent :
      (plan : SyncPlan) (now : ℕ) (base : Option String) (db : Db)
      → IsConsistent urls db
      → IsConsistent urls (apply_plan urls plan now base db).1
  unfolding apply_plan
  apply_plan-IsConsistent plan now base db c =
      go (apply_rows urls base plan.importable nothing db)
        (apply_rows-IsConsistent base plan.importable nothing db c)
    where
      nothing : SyncOutcome
      nothing = record { inserted_rows = []; updated_rows = []; newly_missing = [] }

      go :
          (r : Option SyncOutcome × Db)
          → IsConsistent urls r.1
          → IsConsistent urls (finish_plan urls plan now r).1
      go (none, db') k = k
      go (some out, db') k = elim (Bool-cases plan.mark_missing) [
        | inl e ↦ rw e (mark_sources-IsConsistent plan now plan.sources out db' k)
        | inr e ↦ rw e k
      ]

  replace_missing :
      (i id : String) (new : Listing) (rs : List Listing)
      → new.missing_from_source_since ≡ none
      → is_in i (ids_of (replace id new rs)) ≡ true
      → is_in i (ids_of rs) ≡ true
  unfolding replace
  replace_missing i id new [] clear e = e
  replace_missing i id new (r ∷ rs) clear e = elim (Bool-cases (has_id id r)) [
    | inl h ↦ ground (arith, h, clear, e, replace_missing i id new rs clear)
    | inr h ↦ ground (arith, h, e, replace_missing i id new rs clear)
  ]

  append_missing :
      (new : Listing) (rs : List Listing)
      → new.missing_from_source_since ≡ none
      → ids_of (rs ++ new ∷ []) ≡ ids_of rs
  append_missing new [] clear = rw clear refl
  append_missing new (r ∷ rs) clear = ground (arith, append_missing new rs clear)

  abbrev IsPresent : Listing → Type 0
  IsPresent r = r.missing_from_source_since ≡ none

  refresh-IsPresent : (base : Option String) (row old : Listing) → IsPresent (refresh base row old)
  unfolding refresh
  refresh-IsPresent base row old = elim (Bool-cases old.claimed) [
    | inl e ↦ rw e refl
    | inr e ↦ rw e refl
  ]

  upsert_missing :
      (base : Option String) (row : Listing) (db : Db) (i : String)
      → IsPresent row
      → is_in i (missing_ids (table_after db (upsert base row db))) ≡ true
      → is_in i (missing_ids db) ≡ true
  unfolding upsert insert
  upsert_missing base row db i clear e = go (find (same_import row) db.listings) refl
    where
      go :
          (o : Option Listing)
          → find (same_import row) db.listings ≡ o
          → is_in i (missing_ids db) ≡ true
      go none f =
          let row' = record row { template_url = template_for base row.id row } in
          elim (Bool-cases (any (clash row') db.listings)) [
            | inl c ↦ rw (upsert, f, insert, c) at e
            | inr c ↦
                let e' : is_in i (ids_of (db.listings ++ row' ∷ [])) ≡ true =
                  rw (upsert, f, insert, c) at e in
                rw (append_missing row' db.listings clear) at e'
          ]
      go (some old) f =
          let new = refresh base row old in
          elim (Bool-cases (any (clash new) (others old.id db.listings))) [
            | inl c ↦ rw (upsert, f, c) at e
            | inr c ↦
                let e' : is_in i (ids_of (replace old.id new db.listings)) ≡ true =
                  rw (upsert, f, c) at e in
                replace_missing i old.id new db.listings (refresh-IsPresent base row old) e'
          ]

  apply_rows_missing :
      (base : Option String) (rows : List Listing) (out : SyncOutcome) (db : Db) (i : String)
      → All IsPresent rows
      → is_in i (missing_ids (apply_rows urls base rows out db).1) ≡ true
      → is_in i (missing_ids db) ≡ true
  unfolding apply_rows import_upsert
  apply_rows_missing base [] out db i h e = e
  apply_rows_missing base (row ∷ rows) out db i (p, h) e =
      let row' = record row { endpoint_key = key_of urls row.endpoint_url } in
      upsert_missing base row' db i p
        (go (upsert base row' db) (λ o d k. apply_rows_missing base rows o d i h k) e)
    where
      go :
          (u : Upsert)
          → ((o : SyncOutcome) (d : Db)
              → is_in i (missing_ids (apply_rows urls base rows o d).1) ≡ true
              → is_in i (missing_ids d) ≡ true)
          → is_in i (missing_ids (after_upsert urls base rows out db u).1) ≡ true
          → is_in i (missing_ids (table_after db u)) ≡ true
      go (inserted r db') next k = next _ db' k
      go (updated r db') next k = next _ db' k
      go refused next k = k

  -- A sync of which an upsert raises part-way marks nothing: a row that is marked missing afterwards was marked
  -- before. The rows of the plan are themselves not marked, as those of a source are.
  pub apply_failure_marks_nothing :
      (plan : SyncPlan) (now : ℕ) (base : Option String) (db db' : Db) (i : String)
      → All IsPresent plan.importable
      → apply_plan urls plan now base db ≡ (none, db')
      → is_in i (missing_ids db') ≡ true
      → is_in i (missing_ids db) ≡ true
  unfolding apply_plan
  apply_failure_marks_nothing plan now base db db' i h failed marked =
      go (apply_rows urls base plan.importable nothing db) failed
        (λ k. apply_rows_missing base plan.importable nothing db i h k)
    where
      nothing : SyncOutcome
      nothing = record { inserted_rows = []; updated_rows = []; newly_missing = [] }

      go :
          (r : Option SyncOutcome × Db)
          → finish_plan urls plan now r ≡ (none, db')
          → (is_in i (missing_ids r.1) ≡ true → is_in i (missing_ids db) ≡ true)
          → is_in i (missing_ids db) ≡ true
      go (none, d) f next = next (rw (sym (ap (λ (x : Option SyncOutcome × Db). x.1) f)) at marked)
      go (some out, d) f next = elim (Bool-cases plan.mark_missing) [
        | inl e ↦ absurd (ground (arith, e, f))
        | inr e ↦ absurd (ground (arith, e, f))
      ]
