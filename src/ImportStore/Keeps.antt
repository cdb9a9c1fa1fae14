-- ===== src/ImportStore/Keeps.antt =====
-- The statements of imports and of the purge keep the table's invariant.
use agent_discovery_board.Prelude.{
  ℕ, String, ◌≡◌, refl, sym, ◌∙◌, inl, inr, Bool, true, false, Option, none, some, List, [], ◌∷◌,
  map, arith, eq_iff, Bool-cases, keep, any, find, find_sound, All,
}
use agent_discovery_board.Listing.{Listing}
use agent_discovery_board.Endpoint.{UrlLibrary}
use agent_discovery_board.Store.{
  Blocked, Db, same_offering, same_import, clash, others, replace, Write, wrote, no_row, violation,
  failed, insert, key_of,
}
use agent_discovery_board.Store.Unique.{IsUnique, replace-IsUnique}
use agent_discovery_board.Store.Writes.{
  HasKey, IsConsistent, All-replace, All-find, insert-IsConsistent,
}
use agent_discovery_board.ImportStore.{
  Upsert, to_upsert, inserted, updated, refused, template_for, refresh, upsert, import_upsert,
  is_missing, mark, mark_missing_from_source,
}

-- Deleting rows.
pub any-keep :
    (r : Listing) (p : Listing → Bool) (rs : List Listing)
    → any (clash r) rs ≡ false
    → any (clash r) (keep p rs) ≡ false
any-keep r p [] h = refl
any-keep r p (x ∷ rs) h = ground (arith, any-keep r p rs)

pub keep-IsUnique : (p : Listing → Bool) (rs : List Listing) → IsUnique rs → IsUnique (keep p rs)
keep-IsUnique p [] u = tt
keep-IsUnique p (r ∷ rs) (first, u) = elim (Bool-cases (p r)) [
  | inl stays ↦ rw stays (any-keep r p rs first, keep-IsUnique p rs u)
  | inr goes ↦ rw goes (keep-IsUnique p rs u)
]

All-keep :
    (P : Listing → Type 0) (p : Listing → Bool) (rs : List Listing) → All P rs → All P (keep p rs)
All-keep P p [] h = tt
All-keep P p (r ∷ rs) (q, h) = elim (Bool-cases (p r)) [
  | inl stays ↦ rw stays (q, All-keep P p rs h)
  | inr goes ↦ rw goes (All-keep P p rs h)
]

pub keep-IsConsistent :
    (urls : UrlLibrary) (p : Listing → Bool) (blocked : List Blocked) (db : Db)
    → IsConsistent urls db
    → IsConsistent urls (record { listings = keep p db.listings; do_not_import = blocked })
keep-IsConsistent urls p blocked db c = record {
  unique = keep-IsUnique p db.listings c.unique;
  keys = All-keep (HasKey urls) p db.listings c.keys;
}

-- Marking rows leaves all that an index reads.
module _ (urls : UrlLibrary) (source : String) (seen : List String) (now : ℕ) where
  clash-mark :
      (a b : Listing)
      → clash (mark urls source seen now a) (mark urls source seen now b) ≡ clash a b
  unfolding clash same_offering same_import
  clash-mark a b = elim (Bool-cases (is_missing urls source seen a)) [
    | inl p ↦ elim (Bool-cases (is_missing urls source seen b)) [
      | inl q ↦ rw (p, q) refl
      | inr q ↦ rw (p, q) refl
    ]
    | inr p ↦ elim (Bool-cases (is_missing urls source seen b)) [
      | inl q ↦ rw (p, q) refl
      | inr q ↦ rw (p, q) refl
    ]
  ]

  any-mark :
      (r : Listing) (rs : List Listing)
      → any (clash (mark urls source seen now r)) (map (mark urls source seen now) rs)
        ≡ any (clash r) rs
  any-mark r [] = refl
  any-mark r (x ∷ rs) = rw (clash-mark r x, any-mark r rs) refl

  mark-IsUnique : (rs : List Listing) → IsUnique rs → IsUnique (map (mark urls source seen now) rs)
  mark-IsUnique [] u = tt
  mark-IsUnique (r ∷ rs) (first, u) = (any-mark r rs ∙ first, mark-IsUnique rs u)

  mark-HasKey :
      (rs : List Listing)
      → All (HasKey urls) rs
      → All (HasKey urls) (map (mark urls source seen now) rs)
  mark-HasKey [] h = tt
  mark-HasKey (r ∷ rs) (k, h) = (one (is_missing urls source seen r) refl, mark-HasKey rs h)
    where
      one :
          (b : Bool) → is_missing urls source seen r ≡ b → HasKey urls (mark urls source seen now r)
      one true e = rw e k
      one false e = rw e k

  pub mark-IsConsistent :
      (db : Db)
      → IsConsistent urls db
      → IsConsistent urls (mark_missing_from_source urls source seen now db).1
  unfolding mark_missing_from_source
  mark-IsConsistent db c = record {
    unique = mark-IsUnique db.listings c.unique;
    keys = mark-HasKey db.listings c.keys;
  }

-- The table that an upsert leaves.
abbrev pub table_after : Db → Upsert → Db
table_after db (inserted r db') = db'
table_after db (updated r db') = db'
table_after db refused = db

module _ (urls : UrlLibrary) where
  key_of_same_import : (a b : Listing) → same_import a b ≡ true → a.endpoint_key ≡ b.endpoint_key
  unfolding same_import
  key_of_same_import a b e = ground (arith, eq_iff a.endpoint_key b.endpoint_key)

  refresh-HasKey :
      (base : Option String) (row old : Listing)
      → HasKey urls row
      → HasKey urls old
      → same_import row old ≡ true
      → HasKey urls (refresh base row old)
  unfolding refresh
  refresh-HasKey base row old k k' e = elim (Bool-cases old.claimed) [
    | inl p ↦ rw p k'
    | inr p ↦ rw p (sym (key_of_same_import row old e) ∙ k)
  ]

  refreshed-IsConsistent :
      (new old : Listing) (db : Db)
      → IsConsistent urls db
      → HasKey urls new
      → any (clash new) (others old.id db.listings) ≡ false
      → IsConsistent urls (record db { listings = replace old.id new db.listings })
  refreshed-IsConsistent new old db c k clear = record {
    unique = replace-IsUnique old.id new db.listings c.unique clear;
    keys = All-replace (HasKey urls) old.id new db.listings c.keys k;
  }

  inserted-IsConsistent :
      (row : Listing) (db : Db) (w : Write)
      → IsConsistent urls db
      → HasKey urls row
      → insert row db ≡ w
      → IsConsistent urls (table_after db (to_upsert w))
  inserted-IsConsistent row db (wrote r db') c k e = insert-IsConsistent urls row r db db' c k e
  inserted-IsConsistent row db no_row c k e = c
  inserted-IsConsistent row db violation c k e = c
  inserted-IsConsistent row db failed c k e = c

  upsert-IsConsistent :
      (base : Option String) (row : Listing) (db : Db)
      → IsConsistent urls db
      → HasKey urls row
      → IsConsistent urls (table_after db (upsert base row db))
  unfolding upsert
  upsert-IsConsistent base row db c k = go (find (same_import row) db.listings) refl
    where
      go :
          (o : Option Listing)
          → find (same_import row) db.listings ≡ o
          → IsConsistent urls (table_after db (upsert base row db))
      go none p =
          let row' = record row { template_url = template_for base row.id row } in
          rw (upsert, p) (inserted-IsConsistent row' db (insert row' db) c k refl)
      go (some old) p =
          let new = refresh base row old in
          let new_key =
            refresh-HasKey base row old k
              (All-find (HasKey urls) (same_import row) db.listings old c.keys p)
              (find_sound (same_import row) db.listings old p) in
          elim (Bool-cases (any (clash new) (others old.id db.listings))) [
            | inl taken ↦ rw (upsert, p, taken) c
            | inr clear ↦ rw (upsert, p, clear) (refreshed-IsConsistent new old db c new_key clear)
          ]

  pub import_upsert-IsConsistent :
      (base : Option String) (row : Listing) (db : Db)
      → IsConsistent urls db
      → IsConsistent urls (table_after db (import_upsert urls base row db))
  unfolding import_upsert
  import_upsert-IsConsistent base row db c =
      upsert-IsConsistent base (record row { endpoint_key = key_of urls row.endpoint_url }) db c
        refl
