-- ===== src/ImportStore/Claimed.antt =====
-- A sync leaves the content of a claimed listing alone; and the batch that a unique index stops.
use agent_discovery_board.Prelude.{
  String, ◌≡◌, refl, ◌∙◌, inl, inr, Bool, true, false, not, Option, none, some, List, [], ◌∷◌,
  arith, eq_refl, Bool-cases, any, find,
}
use agent_discovery_board.Listing.{Listing}
use agent_discovery_board.Endpoint.{UrlLibrary}
use agent_discovery_board.Store.{
  Db, same_offering, same_import, clash, has_id, others, replace, insert, key_of,
}
use agent_discovery_board.Store.Unique.{IsUnique, clash_sym}
use agent_discovery_board.Store.Writes.{IsConsistent}
use agent_discovery_board.ImportStore.Keeps.{any-keep}
use agent_discovery_board.ImportStore.{
  updated, refused, template_for, refresh, upsert, import_upsert,
}

-- A row of a consistent table clashes with none of the others.
others-clear :
    (old : Listing) (p : Listing → Bool) (rs : List Listing)
    → IsUnique rs
    → find p rs ≡ some old
    → any (clash old) (others old.id rs) ≡ false
others-clear old p [] u e = refl
others-clear old p (r ∷ rs) (first, u) e = elim (Bool-cases (p r)) [
  | inl here ↦
      let same : r ≡ old = ground arith in
      let self = eq_refl old.id in
      let rest = any-others-clear rs (rw same at first) in rw same (ground arith)
  | inr gone ↦
      let found : find p rs ≡ some old = ground arith in
      let ih = others-clear old p rs u found in
      let apart = clash-found old r p rs first found in ground (arith, clash_sym old r, ih)
]
  where
    any-others-clear :
        (xs : List Listing)
        → any (clash old) xs ≡ false
        → any (clash old) (others old.id xs) ≡ false
    any-others-clear xs h = any-keep old (λ r. not (has_id old.id r)) xs h

    clash-found :
        (o r : Listing) (q : Listing → Bool) (xs : List Listing)
        → any (clash r) xs ≡ false
        → find q xs ≡ some o
        → clash r o ≡ false
    clash-found o r q [] h f = absurd (ground arith)
    clash-found o r q (x ∷ xs) h f = elim (Bool-cases (q x)) [
      | inl here ↦ let same : x ≡ o = ground arith in rw (← same) (ground arith)
      | inr gone ↦ clash-found o r q xs (ground arith) (ground arith)
    ]

-- The row that a sync leaves of a claimed one.
abbrev pub synced : Listing → Listing → Listing
synced row old = record old {
  last_synced_at = row.last_synced_at;
  missing_from_source_since = none;
}

refresh_claimed :
    (base : Option String) (row old : Listing)
    → old.claimed ≡ true
    → refresh base row old ≡ synced row old
unfolding refresh
refresh_claimed base row old e = rw e refl

clash-synced :
    (row old : Listing) (rs : List Listing) → any (clash (synced row old)) rs ≡ any (clash old) rs
unfolding clash same_offering same_import
clash-synced row old [] = refl
clash-synced row old (r ∷ rs) = rw (clash-synced row old rs) refl

upsert_claimed :
    (base : Option String) (row old : Listing) (db : Db)
    → IsUnique db.listings
    → find (same_import row) db.listings ≡ some old
    → old.claimed ≡ true
    → upsert base row db
      ≡ updated
          (synced row old)
          (record db { listings = replace old.id (synced row old) db.listings })
unfolding upsert
upsert_claimed base row old db u found owned =
    let new = refresh_claimed base row old owned in
    let clear =
      clash-synced row old (others old.id db.listings)
      ∙ others-clear old (same_import row) db.listings u found in
    rw (upsert, found, new, clear) refl

any-same_offering :
    (row : Listing) (link : Option String) (rs : List Listing)
    → any (same_offering row) rs ≡ true
    → any (clash (record row { template_url = link })) rs ≡ true
unfolding clash same_offering
any-same_offering row link [] h = cc
any-same_offering row link (r ∷ rs) h = ground (arith, any-same_offering row link rs)

upsert_clash :
    (base : Option String) (row : Listing) (db : Db)
    → find (same_import row) db.listings ≡ none
    → any (same_offering row) db.listings ≡ true
    → upsert base row db ≡ refused
unfolding upsert insert
upsert_clash base row db fresh taken =
    let full = any-same_offering row (template_for base row.id row) db.listings taken in
    rw (upsert, fresh, insert, full) refl

module _ (urls : UrlLibrary) where
  -- The row as `import_upsert` sends it.
  abbrev pub keyed : Listing → Listing
  keyed row = record row { endpoint_key = key_of urls row.endpoint_url }

  -- A sync of a record whose listing is claimed always succeeds, and changes nothing of that
  -- listing but when it was last synced and that it is no longer missing; no other row changes.
  pub claimed_preserved :
      (base : Option String) (row old : Listing) (db : Db)
      → IsConsistent urls db
      → find (same_import (keyed row)) db.listings ≡ some old
      → old.claimed ≡ true
      → import_upsert urls base row db
        ≡ updated
            (synced row old)
            (record db { listings = replace old.id (synced row old) db.listings })
  unfolding import_upsert
  claimed_preserved base row old db c found owned =
      upsert_claimed base (keyed row) old db c.unique found owned

  -- What no sync changes of a listing, claimed or not.
  pub refresh_identity :
      (base : Option String) (row old : Listing)
      → ((refresh base row old).id ≡ old.id)
        × ((refresh base row old).submitted_by ≡ old.submitted_by)
        × ((refresh base row old).claimed ≡ old.claimed)
        × ((refresh base row old).status ≡ old.status)
        × ((refresh base row old).is_test ≡ old.is_test)
        × ((refresh base row old).created_at ≡ old.created_at)
        × ((refresh base row old).source ≡ old.source)
        × ((refresh base row old).imported_at ≡ old.imported_at)
        × ((refresh base row old).missing_from_source_since ≡ none)
  unfolding refresh
  refresh_identity base row old = ground arith

  -- A record that is new to its source, but an offering whose endpoint an active offering of the
  -- same owner already has, is refused by the database and not by the validation: the statement
  -- raises, whatever else the batch holds.
  pub import_clash :
      (base : Option String) (row : Listing) (db : Db)
      → find (same_import (keyed row)) db.listings ≡ none
      → any (same_offering (keyed row)) db.listings ≡ true
      → import_upsert urls base row db ≡ refused
  unfolding import_upsert
  import_clash base row db fresh taken = upsert_clash base (keyed row) db fresh taken
