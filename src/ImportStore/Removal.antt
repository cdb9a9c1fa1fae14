-- ===== src/ImportStore/Removal.antt =====
-- app/core/db.py: `remove_imported_listing`, the row that is gone and the entry that keeps it out.
use agent_discovery_board.Prelude.{
  ℕ, String, ◌≡◌, refl, sym, ap, ◌∙◌, inl, inr, true, ◌&&◌, Option, none, some, List, [], ◌∷◌,
  arith, ◌==◌, eq_refl, Bool-cases, is_some, or_else, any, find,
}
use mathlib.Core.Path.{subst}
use agent_discovery_board.Listing.{Listing}
use agent_discovery_board.Endpoint.{UrlLibrary}
use agent_discovery_board.Store.{Blocked, Db, has_id, others, key_of, get_listing}
use agent_discovery_board.ImportStore.{
  is_blocked, block, remove_imported_listing, is_in_do_not_import,
}

find-others : (id : String) (rs : List Listing) → find (has_id id) (others id rs) ≡ none
find-others id [] = refl
find-others id (r ∷ rs) = ground (arith, find-others id rs)

block-blocks :
    (b : Blocked) (bs : List Blocked)
    → any (λ (x : Blocked). x.source == b.source && x.endpoint_key == b.endpoint_key) (block b bs)
      ≡ true
unfolding block
block-blocks b [] = rw (eq_refl b.source, eq_refl b.endpoint_key) refl
block-blocks b (x ∷ xs) =
    elim (Bool-cases (x.source == b.source && x.endpoint_key == b.endpoint_key)) [
      | inl e ↦ ground (arith, e, eq_refl b.source, eq_refl b.endpoint_key)
      | inr e ↦ ground (arith, e, block-blocks b xs)
    ]

-- A removal that succeeds takes the row out of the table, and the endpoint of the row is from then
-- on in the do-not-import list of its source.
pub removed_stays_out :
    (urls : UrlLibrary) (id reason source : String) (now : ℕ) (db db' : Db) (r : Listing)
    → remove_imported_listing urls id reason now db ≡ some (r, db')
    → r.source ≡ some source
    → (get_listing id db' ≡ none) × (is_in_do_not_import urls source r.endpoint_url db' ≡ true)
unfolding remove_imported_listing get_listing is_in_do_not_import is_blocked
removed_stays_out urls id reason source now db db' r e own =
    go (find (λ x. has_id id x && is_some x.source) db.listings) refl
  where
    after : Listing → Db
    after x = record {
      listings = others id db.listings;
      do_not_import =
          block
            (record {
              source = or_else x.source "";
              endpoint_key = key_of urls x.endpoint_url;
              reason = reason;
              created_at = now;
            })
            db.do_not_import;
    }

    go :
        (o : Option Listing)
        → find (λ x. has_id id x && is_some x.source) db.listings ≡ o
        → (get_listing id db' ≡ none) × (is_in_do_not_import urls source r.endpoint_url db' ≡ true)
    go none f = absurd (ground arith)
    go (some x) f =
        let done : some (x, after x) ≡ some (r, db') = rw (remove_imported_listing, f) at e in
        let same = ap (λ (o : Option (Listing × Db)). or_else o (r, db')) done in
        let same_row : x ≡ r = ap (λ (y : Listing × Db). y.0) same in
        let same_db : after x ≡ db' = ap (λ (y : Listing × Db). y.1) same in
        let whose : or_else x.source "" ≡ source =
          rw (ap (λ (y : Listing). y.source) same_row ∙ own) refl in
        let blocked : is_blocked (or_else x.source "") (key_of urls x.endpoint_url) (after x)
            ≡ true =
          block-blocks _ db.do_not_import in
        (
          sym (ap (get_listing id) same_db) ∙ find-others id db.listings,
          subst (λ (y : Db). is_in_do_not_import urls source r.endpoint_url y ≡ true) same_db
              (subst
                (λ (y : Listing). is_blocked source (key_of urls y.endpoint_url) (after x) ≡ true)
                same_row
                (subst (λ s. is_blocked s (key_of urls x.endpoint_url) (after x) ≡ true) whose
                  blocked)),
        )
