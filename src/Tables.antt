-- ===== src/Tables.antt =====
-- app/core/db.py: the tables over time. Every statement that writes them is a step, in any order and
-- with any arguments, as concurrent requests may run them.
use agent_discovery_board.Prelude.{
  ℕ, String, ◌≡◌, refl, inl, inr, Bool, true, not, ◌&&◌, ◌||◌, Option, none, some, List, Bool-cases,
  Option-cases, is_some, find,
}
use agent_discovery_board.Listing.{Listing}
use agent_discovery_board.Endpoint.{UrlLibrary}
use agent_discovery_board.Store.{
  Db, has_id, Write, wrote, no_row, violation, failed, insert, update_where, Patch, is_null,
  has_null, key_of, create_listing, apply_patch, update_listing, record_heartbeat, claim_listing,
}
use agent_discovery_board.Store.Writes.{
  HasKey, IsConsistent, insert-IsConsistent, update_where-IsConsistent,
}
use agent_discovery_board.ImportStore.{
  import_upsert, remove_imported_listing, mark_missing_from_source, purge_expired_test_listings,
}
use agent_discovery_board.ImportStore.Keeps.{
  keep-IsConsistent, mark-IsConsistent, import_upsert-IsConsistent, table_after,
}

-- The table that a write leaves.
abbrev pub after : Db → Write → Db
after db (wrote r db') = db'
after db _ = db

-- The table that a removal leaves.
abbrev pub after_removal : Db → Option (Listing × Db) → Db
after_removal db none = db
after_removal db (some (r, db')) = db'

pub data Step (urls : UrlLibrary) : Db → Db → Type 0 where
  create : (row : Listing) (db : Db) → Step urls db (after db (create_listing urls row db))
  patch :
      (id : String) (p : Patch) (now : ℕ) (db : Db)
      → Step urls db (after db (update_listing urls id p now db))
  beat :
      (id : String) (now interval : ℕ) (db : Db)
      → Step urls db (after db (record_heartbeat id now interval db))
  claim :
      (id owner : String) (now : ℕ) (db : Db)
      → Step urls db (after db (claim_listing id owner now db))
  import :
      (base : Option String) (row : Listing) (db : Db)
      → Step urls db (table_after db (import_upsert urls base row db))
  mark_missing :
      (source : String) (seen : List String) (now : ℕ) (db : Db)
      → Step urls db (mark_missing_from_source urls source seen now db).1
  remove :
      (id reason : String) (now : ℕ) (db : Db)
      → Step urls db (after_removal db (remove_imported_listing urls id reason now db))
  purge :
      (cutoff limit : ℕ) (db : Db) → Step urls db (purge_expired_test_listings cutoff limit db).1

pub data Reach (urls : UrlLibrary) (start : Db) : Db → Type 0 where
  here : Reach urls start start
  next : {db db' : Db} → Reach urls start db → Step urls db db' → Reach urls start db'

module _ (urls : UrlLibrary) where
  after-IsConsistent :
      (db : Db) (w : Write)
      → IsConsistent urls db
      → ((r : Listing) (db' : Db) → w ≡ wrote r db' → IsConsistent urls db')
      → IsConsistent urls (after db w)
  after-IsConsistent db (wrote r db') c h = h r db' refl
  after-IsConsistent db no_row c h = c
  after-IsConsistent db violation c h = c
  after-IsConsistent db failed c h = c

  create-IsConsistent :
      (row : Listing) (db : Db)
      → IsConsistent urls db
      → IsConsistent urls (after db (create_listing urls row db))
  unfolding create_listing
  create-IsConsistent row db c =
      let row' = record row { endpoint_key = key_of urls row.endpoint_url } in
      after-IsConsistent db (insert row' db) c
        (λ r db' e. insert-IsConsistent urls row' r db db' c refl e)

  patched_HasKey :
      (p : Patch) (now : ℕ) (x : Listing) → HasKey urls x → HasKey urls (apply_patch urls p now x)
  unfolding apply_patch
  patched_HasKey p now x k = go p.endpoint_url refl
    where
      go :
          (u : Option (Option String)) → p.endpoint_url ≡ u → HasKey urls (apply_patch urls p now x)
      go none e = rw e k
      go (some none) e = rw e k
      go (some (some url)) e = rw e refl

  update-IsConsistent :
      (id : String) (cond : Listing → Bool) (set : Listing → Listing) (db : Db)
      → IsConsistent urls db
      → ((x : Listing) → HasKey urls x → HasKey urls (set x))
      → IsConsistent urls (after db (update_where id cond set db))
  update-IsConsistent id cond set db c keep_key =
      after-IsConsistent db (update_where id cond set db) c
        (λ r db' e. update_where-IsConsistent urls id cond set r db db' c keep_key e)

  patch-IsConsistent :
      (id : String) (p : Patch) (now : ℕ) (db : Db)
      → IsConsistent urls db
      → IsConsistent urls (after db (update_listing urls id p now db))
  unfolding update_listing
  patch-IsConsistent id p now db c =
      elim (Bool-cases
        (is_null p.endpoint_url || (has_null p && is_some (find (has_id id) db.listings)))) [
          | inl bad ↦ rw bad c
          | inr fine ↦ rw fine (
              update-IsConsistent id (λ _. true) (apply_patch urls p now) db c
                (patched_HasKey p now))
        ]

  remove-IsConsistent :
      (id reason : String) (now : ℕ) (db : Db)
      → IsConsistent urls db
      → IsConsistent urls (after_removal db (remove_imported_listing urls id reason now db))
  unfolding remove_imported_listing
  remove-IsConsistent id reason now db c =
      elim (Option-cases (find (λ r. has_id id r && is_some r.source) db.listings)) [
        | inl gone ↦ rw (after_removal, remove_imported_listing, gone) c
        | inr (r, found) ↦
            rw (after_removal, remove_imported_listing, found)
              (keep-IsConsistent urls (λ x. not (has_id id x)) _ db c)
      ]

  pub Step-IsConsistent :
      {db db' : Db} → Step urls db db' → IsConsistent urls db → IsConsistent urls db'
  unfolding record_heartbeat claim_listing purge_expired_test_listings
  Step-IsConsistent (create row db) c = create-IsConsistent row db c
  Step-IsConsistent (patch id p now db) c = patch-IsConsistent id p now db c
  Step-IsConsistent (beat id now interval db) c = update-IsConsistent id _ _ db c (λ x k. k)
  Step-IsConsistent (claim id owner now db) c = update-IsConsistent id _ _ db c (λ x k. k)
  Step-IsConsistent (import base row db) c = import_upsert-IsConsistent urls base row db c
  Step-IsConsistent (mark_missing source seen now db) c =
      mark-IsConsistent urls source seen now db c
  Step-IsConsistent (remove id reason now db) c = remove-IsConsistent id reason now db c
  Step-IsConsistent (purge cutoff limit db) c = keep-IsConsistent urls _ db.do_not_import db c

  -- From a consistent table every sequence of statements, whatever their arguments, leads to a
  -- consistent table: ids are unique, no two active offerings of one scope share key and owner, no
  -- two imports share source and key, and every key is that of the row's own URL.
  pub Reach-IsConsistent :
      {start db : Db} → IsConsistent urls start → Reach urls start db → IsConsistent urls db
  Reach-IsConsistent c here = c
  Reach-IsConsistent c (next r s) = Step-IsConsistent s (Reach-IsConsistent c r)
