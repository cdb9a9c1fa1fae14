-- ===== src/Store/Once.antt =====
-- What a conditional update changes, and that it is made once.
use agent_discovery_board.Prelude.{
  ℕ, suc, ◌+◌, ◌<◌, String, ◌≡◌, refl, ap, Bool, true, false, Option, none, some, List, [], ◌∷◌,
  arith, ◌==◌, eq_iff, length, find, find_sound,
}
use agent_discovery_board.Listing.{Listing}
use agent_discovery_board.Endpoint.{UrlLibrary}
use agent_discovery_board.Store.{
  Db, has_id, replace, wrote, no_row, update_where, get_listing, Patch, apply_patch, update_listing,
  record_heartbeat, claim_listing,
}

pub find-replace :
    (id : String) (new old : Listing) (rs : List Listing)
    → find (has_id id) rs ≡ some old
    → has_id id new ≡ true
    → find (has_id id) (replace id new rs) ≡ some new
unfolding replace
find-replace id new old [] e h = cc
find-replace id new old (r ∷ rs) e h = ground (arith, find-replace id new old rs)

find-replace_other :
    (id k : String) (new : Listing) (rs : List Listing)
    → has_id id new ≡ true
    → (k == id) ≡ false
    → find (has_id k) (replace id new rs) ≡ find (has_id k) rs
unfolding replace
find-replace_other id k new [] h differ = refl
find-replace_other id k new (r ∷ rs) h differ = ground (
  arith,
  find-replace_other id k new rs,
  eq_iff new.id id,
  eq_iff r.id id,
  eq_iff r.id k,
  eq_iff new.id k,
  eq_iff k id,
)

found_has_id :
    (id : String) (rs : List Listing) (r : Listing)
    → find (has_id id) rs ≡ some r
    → has_id id r ≡ true
found_has_id id rs r e = find_sound (has_id id) rs r e

-- What a conditional update that writes has done: the one row met the condition and was replaced.
pub record Updated (id : String) (cond : Listing → Bool) (set : Listing → Listing) (db : Db)
    (r : Listing) (db' : Db) : Type 0 where
  pub old : Listing
  pub found : get_listing id db ≡ some old
  pub met : cond old ≡ true
  pub result : r ≡ set old
  pub stored : get_listing id db' ≡ some r
  pub rest : (k : String) → (k == id) ≡ false → get_listing k db' ≡ get_listing k db
  pub size : length db'.listings ≡ length db.listings

length-replace :
    (id : String) (new : Listing) (rs : List Listing) → length (replace id new rs) ≡ length rs
unfolding replace
length-replace id new [] = refl
length-replace id new (r ∷ rs) = ap suc (length-replace id new rs)

pub update_where_lem :
    (id : String) (cond : Listing → Bool) (set : Listing → Listing) (db db' : Db) (r : Listing)
    → ((x : Listing) → (set x).id ≡ x.id)
    → update_where id cond set db ≡ wrote r db'
    → Updated id cond set db r db'
unfolding update_where get_listing
update_where_lem id cond set db db' r keep_id e = go (find (has_id id) db.listings) refl
  where
    go : (o : Option Listing) → find (has_id id) db.listings ≡ o → Updated id cond set db r db'
    go none p = absurd (ground arith)
    go (some old) p =
        let same_id = keep_id old in
        let mine : has_id id (set old) ≡ true = rw same_id (found_has_id id db.listings old p) in
        let result : r ≡ set old = ground arith in
        let table : db' ≡ record db { listings = replace id (set old) db.listings } =
          ground arith in
        record {
          old = old;
          found = p;
          met = ground arith;
          result = result;
          stored = rw (table, result) (find-replace id (set old) old db.listings p mine);
          rest = λ k differ. rw table (find-replace_other id k (set old) db.listings mine differ);
          size = rw table (length-replace id (set old) db.listings);
        }

update_refused :
    (id : String) (cond : Listing → Bool) (set : Listing → Listing) (db : Db) (r : Listing)
    → get_listing id db ≡ some r
    → cond r ≡ false
    → update_where id cond set db ≡ no_row
unfolding update_where get_listing
update_refused id cond set db r p q = rw (update_where, p, q) refl

-- A heartbeat that is recorded is the last one of its window: until the interval is over every
-- other one for this listing writes nothing.
pub heartbeat_once :
    (id : String) (now later interval : ℕ) (db db' : Db) (r : Listing)
    → record_heartbeat id now interval db ≡ wrote r db'
    → later < now + interval
    → record_heartbeat id later interval db' ≡ no_row
unfolding record_heartbeat
heartbeat_once id now later interval db db' r e early =
    let u = update_where_lem id _ _ db db' r (λ x. refl) e in
    update_refused id _ _ db' r u.stored (rw u.result (ground arith))

-- A listing is claimed once: after a claim that succeeds every other one writes nothing.
pub claim_once :
    (id owner other_owner : String) (now later : ℕ) (db db' : Db) (r : Listing)
    → claim_listing id owner now db ≡ wrote r db'
    → claim_listing id other_owner later db' ≡ no_row
unfolding claim_listing
claim_once id owner other_owner now later db db' r e =
    let u = update_where_lem id _ _ db db' r (λ x. refl) e in
    update_refused id _ _ db' r u.stored (rw u.result refl)

-- What a PATCH that is written leaves: the listing keeps its id, owner, claim, origin, creation time
-- and test mark, and every other listing stays as it is.
pub record Patched (id : String) (now : ℕ) (db : Db) (r : Listing) (db' : Db) : Type 0 where
  pub old : Listing
  pub found : get_listing id db ≡ some old
  pub same_id : r.id ≡ old.id
  pub same_owner : r.submitted_by ≡ old.submitted_by
  pub same_claim : r.claimed ≡ old.claimed
  pub same_source : r.source ≡ old.source
  pub same_creation : r.created_at ≡ old.created_at
  pub same_scope : r.is_test ≡ old.is_test
  pub same_heartbeat : r.last_seen_at ≡ old.last_seen_at
  pub stamped : r.updated_at ≡ now
  pub stored : get_listing id db' ≡ some r
  pub rest : (k : String) → (k == id) ≡ false → get_listing k db' ≡ get_listing k db

-- A PATCH that is written keeps the row's id, owner, claim, source and the other
-- fixed columns (`Patched`), and the row it returns is what a read then returns.
pub update_listing-Patched :
    (urls : UrlLibrary) (id : String) (p : Patch) (now : ℕ) (db db' : Db) (r : Listing)
    → update_listing urls id p now db ≡ wrote r db'
    → Patched id now db r db'
unfolding update_listing apply_patch
update_listing-Patched urls id p now db db' r e =
    let u =
      update_where_lem id (λ _. true) (apply_patch urls p now) db db' r (λ x. refl)
        (ground arith) in
    record {
      old = u.old;
      found = u.found;
      same_id = ap (λ (x : Listing). x.id) u.result;
      same_owner = ap (λ (x : Listing). x.submitted_by) u.result;
      same_claim = ap (λ (x : Listing). x.claimed) u.result;
      same_source = ap (λ (x : Listing). x.source) u.result;
      same_creation = ap (λ (x : Listing). x.created_at) u.result;
      same_scope = ap (λ (x : Listing). x.is_test) u.result;
      same_heartbeat = ap (λ (x : Listing). x.last_seen_at) u.result;
      stamped = ap (λ (x : Listing). x.updated_at) u.result;
      stored = u.stored;
      rest = u.rest;
    }
