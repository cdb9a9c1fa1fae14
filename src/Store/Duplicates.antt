-- ===== src/Store/Duplicates.antt =====
-- The duplicate check and the unique index agree; what a write does to the rows.
use agent_discovery_board.Prelude.{
  String, ◌≡◌, refl, Bool, true, false, ◌&&◌, none, List, [], ◌∷◌, ◌++◌, arith, ◌==◌, eq_iff,
  if◌then◌else◌, is_some, any, find, lower,
}
use agent_discovery_board.Listing.{active, Listing, is_active}
use agent_discovery_board.Endpoint.{UrlLibrary}
use agent_discovery_board.Store.{
  Db, guarded_type, same_bool, is_guarded, same_offering, same_import, clash, has_id, wrote,
  violation, insert, key_of, create_listing, is_duplicate, find_active_duplicate,
}

is_guarded_lem :
    (x : Listing) → is_guarded x ≡ (is_active x.status && x.listing_type == guarded_type)
unfolding is_guarded
is_guarded_lem x = refl

guarded_new :
    (x : Listing) → x.listing_type ≡ guarded_type → x.status ≡ active → is_guarded x ≡ true
unfolding is_guarded
guarded_new x p q = rw (p, q) refl

module _ (urls : UrlLibrary) where
  abbrev pub keyed : Listing → Listing
  keyed row = record row { endpoint_key = key_of urls row.endpoint_url }

  -- An offering of its own that is about to be stored: active, not imported, with an unused id.
  pub record IsNewOffering (row : Listing) (db : Db) : Type 0 where
    pub offered : row.listing_type ≡ guarded_type
    pub shown : row.status ≡ active
    pub own : row.source ≡ none
    pub new_id : any (has_id row.id) db.listings ≡ false

  -- The tests of the index and of the query, term by term.
  same_offering_lem :
      (row r : Listing)
      → row.listing_type ≡ guarded_type
      → row.status ≡ active
      → same_offering (keyed row) r
        ≡ is_duplicate urls (key_of urls row.endpoint_url) row.submitted_by none row.is_test r
  unfolding same_offering
  same_offering_lem row r offered shown =
      let guarded = guarded_new (keyed row) offered shown in
      let k = flip (key_of urls row.endpoint_url) r.endpoint_key in
      let o = flip (lower row.submitted_by) (lower r.submitted_by) in
      let b = flip_bool row.is_test r.is_test in ground (arith, guarded, k, o, b, is_guarded_lem r)
    where
      flip : (a b : String) → (a == b) ≡ (b == a)
      flip a b = ground (arith, eq_iff a b, eq_iff b a)

      flip_bool : (a b : Bool) → same_bool a b ≡ same_bool b a
      flip_bool a b = ground arith

  clash_own :
      (row r : Listing)
      → row.listing_type ≡ guarded_type
      → row.status ≡ active
      → row.source ≡ none
      → has_id row.id r ≡ false
      → clash (keyed row) r
        ≡ is_duplicate urls (key_of urls row.endpoint_url) row.submitted_by none row.is_test r
  unfolding clash same_import
  clash_own row r offered shown own differ =
      let s = same_offering_lem row r offered shown in
      let i : (row.id == r.id) ≡ false = ground (arith, eq_iff row.id r.id, eq_iff r.id row.id) in
      ground (arith, s, i)

  any-clash_own :
      (row : Listing) (rs : List Listing)
      → row.listing_type ≡ guarded_type
      → row.status ≡ active
      → row.source ≡ none
      → any (has_id row.id) rs ≡ false
      → any (clash (keyed row)) rs
        ≡ any
            (is_duplicate urls (key_of urls row.endpoint_url) row.submitted_by none row.is_test)
            rs
  any-clash_own row [] offered shown own new_id = refl
  any-clash_own row (r ∷ rs) offered shown own new_id =
      let one = clash_own row r offered shown own (ground arith) in
      let rest = any-clash_own row rs offered shown own (ground arith) in rw (one, rest) refl

  any_of_find : (p : Listing → Bool) (rs : List Listing) → is_some (find p rs) ≡ any p rs
  any_of_find p [] = refl
  any_of_find p (r ∷ rs) = ground (arith, any_of_find p rs)

  -- For a new offering the query before the insert and the unique index agree: the insert is
  -- refused exactly if `find_active_duplicate` names a row, and else the row is stored as it is,
  -- under the key of its URL.
  pub create_iff_no_duplicate :
      (row : Listing) (db : Db)
      → IsNewOffering row db
      → create_listing urls row db ≡ (
          if is_some
            (find_active_duplicate urls row.endpoint_url row.submitted_by none row.is_test db)
          then violation
          else wrote (keyed row) (record db { listings = db.listings ++ keyed row ∷ [] }))
  unfolding create_listing insert find_active_duplicate
  create_iff_no_duplicate row db n =
      let a = any-clash_own row db.listings n.offered n.shown n.own n.new_id in
      let f =
        any_of_find
          (is_duplicate urls (key_of urls row.endpoint_url) row.submitted_by none row.is_test)
          db.listings in
      rw (insert, a, find_active_duplicate, f) refl
