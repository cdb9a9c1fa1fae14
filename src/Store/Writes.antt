-- ===== src/Store/Writes.antt =====
-- The table's invariant, and that every write of a listing keeps it or changes nothing.
use agent_discovery_board.Prelude.{
  String, ◌≡◌, refl, inl, inr, Bool, true, false, Option, none, some, List, [], ◌∷◌, ◌++◌, arith,
  if◌then◌else◌, Bool-cases, any, find, All,
}
use agent_discovery_board.Listing.{Listing}
use agent_discovery_board.Endpoint.{UrlLibrary}
use agent_discovery_board.Store.{
  Db, clash, has_id, others, replace, wrote, insert, update_where, key_of,
}
use mathlib.Core.Path.{subst}
use agent_discovery_board.Store.Unique.{IsUnique, append-IsUnique, replace-IsUnique}

abbrev pub HasKey : UrlLibrary → Listing → Type 0
HasKey urls r = r.endpoint_key ≡ key_of urls r.endpoint_url

-- No two rows clash, and every key is that of the row's own URL.
pub record IsConsistent (urls : UrlLibrary) (db : Db) : Type 0 where
  pub unique : IsUnique db.listings
  pub keys : All (HasKey urls) db.listings

module _ (P : Listing → Type 0) where
  pub All-append : (rs : List Listing) (x : Listing) → All P rs → P x → All P (rs ++ x ∷ [])
  All-append [] x h p = (p, tt)
  All-append (r ∷ rs) x (q, h) p = (q, All-append rs x h p)

  pub All-replace :
      (id : String) (new : Listing) (rs : List Listing)
      → All P rs
      → P new
      → All P (replace id new rs)
  unfolding replace
  All-replace id new [] h p = tt
  All-replace id new (r ∷ rs) (q, h) p = (pick (has_id id r), All-replace id new rs h p)
    where
      pick : (b : Bool) → P (if b then new else r)
      pick true = p
      pick false = q

  pub All-find :
      (p : Listing → Bool) (rs : List Listing) (r : Listing) → All P rs → find p rs ≡ some r → P r
  All-find p [] r h e = absurd (ground arith)
  All-find p (x ∷ rs) r (q, h) e = elim (Bool-cases (p x)) [
    | inl here ↦ let same : some x ≡ some r = rw here at e in subst_some same q
    | inr gone ↦ All-find p rs r h (rw gone at e)
  ]
    where
      subst_some : {a b : Listing} → some a ≡ some b → P a → P b
      subst_some {a} {b} e h = subst P (cc) h

module _ (urls : UrlLibrary) where
  pub insert-IsConsistent :
      (row r : Listing) (db db' : Db)
      → IsConsistent urls db
      → HasKey urls row
      → insert row db ≡ wrote r db'
      → IsConsistent urls db'
  unfolding insert
  insert-IsConsistent row r db db' c k e = elim (Bool-cases (any (clash row) db.listings)) [
    | inl taken ↦ absurd (ground arith)
    | inr clear ↦
        let same : record db { listings = db.listings ++ row ∷ [] } ≡ db' = ground arith in
        subst (IsConsistent urls) same (record {
          unique = append-IsUnique db.listings row c.unique clear;
          keys = All-append (HasKey urls) db.listings row c.keys k;
        })
  ]

  pub update_where-IsConsistent :
      (id : String) (cond : Listing → Bool) (set : Listing → Listing) (r : Listing) (db db' : Db)
      → IsConsistent urls db
      → ((x : Listing) → HasKey urls x → HasKey urls (set x))
      → update_where id cond set db ≡ wrote r db'
      → IsConsistent urls db'
  unfolding update_where
  update_where-IsConsistent id cond set r db db' c keep_key e =
      go (find (has_id id) db.listings) refl
    where
      go : (o : Option Listing) → find (has_id id) db.listings ≡ o → IsConsistent urls db'
      go none p = absurd (ground arith)
      go (some x) p =
          let k = All-find (HasKey urls) (has_id id) db.listings x c.keys p in
          let clear : any (clash (set x)) (others id db.listings) ≡ false = ground arith in
          let same : record db { listings = replace id (set x) db.listings } ≡ db' = ground arith in
          subst (IsConsistent urls) same (record {
            unique = replace-IsUnique id (set x) db.listings c.unique clear;
            keys = All-replace (HasKey urls) id (set x) db.listings c.keys (keep_key x k);
          })
