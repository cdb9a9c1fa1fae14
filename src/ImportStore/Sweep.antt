-- ===== src/ImportStore/Sweep.antt =====
-- What the stale marking of a sync and the purge of test listings change, and what they leave alone.
use agent_discovery_board.Prelude.{
  ℕ, String, ◌≡◌, refl, ap, inl, inr, false, List, [], ◌∷◌, map, arith, Bool-cases, keep,
}
use agent_discovery_board.Listing.{Listing}
use agent_discovery_board.Endpoint.{UrlLibrary}
use agent_discovery_board.Store.{Db}
use agent_discovery_board.ImportStore.{
  is_missing, preview_missing_from_source, mark, mark_missing_from_source,
}

module _ (urls : UrlLibrary) (source : String) (seen : List String) where
  preview_ids :
      (rs : List Listing)
      → map
          (λ (p : String × String). p.0)
          (map (λ (r : Listing). (r.id, r.name)) (keep (is_missing urls source seen) rs))
        ≡ map (λ (r : Listing). r.id) (keep (is_missing urls source seen) rs)
  preview_ids [] = refl
  preview_ids (r ∷ rs) = elim (Bool-cases (is_missing urls source seen r)) [
    | inl e ↦ rw e (ap (◌∷◌ r.id) (preview_ids rs))
    | inr e ↦ rw e (preview_ids rs)
  ]

  -- A dry run shows exactly the rows that the marking then marks.
  pub preview-mark :
      (now : ℕ) (db : Db)
      → map (λ (p : String × String). p.0) (preview_missing_from_source urls source seen db)
        ≡ (mark_missing_from_source urls source seen now db).0
  unfolding preview_missing_from_source mark_missing_from_source
  preview-mark now db = preview_ids db.listings

  missing_again :
      (now : ℕ) (r : Listing) → is_missing urls source seen (mark urls source seen now r) ≡ false
  missing_again now r = elim (Bool-cases (is_missing urls source seen r)) [
    | inl e ↦ rw e (ground arith)
    | inr e ↦ rw e e
  ]

  mark_again :
      (now later : ℕ) (r : Listing)
      → mark urls source seen later (mark urls source seen now r) ≡ mark urls source seen now r
  mark_again now later r = let e = missing_again now r in ground arith

  keep_missing_again :
      (now : ℕ) (rs : List Listing)
      → keep (is_missing urls source seen) (map (mark urls source seen now) rs) ≡ []
  keep_missing_again now [] = refl
  keep_missing_again now (r ∷ rs) = rw (missing_again now r) (keep_missing_again now rs)

  map-mark_again :
      (now later : ℕ) (rs : List Listing)
      → map (mark urls source seen later) (map (mark urls source seen now) rs)
        ≡ map (mark urls source seen now) rs
  map-mark_again now later [] = refl
  map-mark_again now later (r ∷ rs) = rw (mark_again now later r, map-mark_again now later rs) refl

  -- Marking a second time, at whatever time, marks nothing and moves no timestamp.
  pub mark_idempotent :
      (now later : ℕ) (db : Db)
      → let marked = (mark_missing_from_source urls source seen now db).1 in
        mark_missing_from_source urls source seen later marked ≡ ([], marked)
  unfolding mark_missing_from_source
  mark_idempotent now later db =
      rw (keep_missing_again now db.listings, map-mark_again now later db.listings) refl
