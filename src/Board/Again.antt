-- ===== src/Board/Again.antt =====
-- app/api/routes/listings.py: a POST that is sent again.
use agent_discovery_board.Prelude.{
  ◌≡◌, refl, sym, ap, ◌∙◌, inl, inr, Bool, true, false, Option, none, some, List, [], ◌∷◌, ◌++◌,
  arith, ◌==◌, eq_refl, Bool-cases, any, find, lower,
}
use agent_discovery_board.Errors.{Result, ok, err}
use agent_discovery_board.Listing.{Listing}
use agent_discovery_board.Models.{ListingCreate, is_reserved_address}
use agent_discovery_board.Store.{
  Db, Write, wrote, no_row, violation, failed, guarded_type, is_duplicate, find_active_duplicate,
  insert, clash, key_of, same_bool,
}
use agent_discovery_board.Store
use agent_discovery_board.Maintenance.{maybe_purge, is_throttled, is_test_name}
use agent_discovery_board.Board.Create.{
  refuse_found, run_purge, refuse_duplicate, insert_row, new_row, create_valid, duplicate_of,
}
use agent_discovery_board.Board.Frames.{IsQuiet}
use agent_discovery_board.Board.Passed.{bind-Passed, raise_if-Passed}
use agent_discovery_board.Board.Monad.{State, Env, ◌>>=◌, duplicate_error}

find-append :
    (p : Listing → Bool) (rs : List Listing) (r : Listing)
    → find p rs ≡ none
    → p r ≡ true
    → find p (rs ++ r ∷ []) ≡ some r
find-append p [] r none_found hit = rw hit refl
find-append p (x ∷ rs) r none_found hit = ground (arith, find-append p rs r)

bool-same : (b : Bool) → same_bool b b ≡ true
bool-same true = refl
bool-same false = refl

-- The row that a POST makes is an active duplicate of its own payload.
own_duplicate :
    (env : Env) (p : ListingCreate)
    → p.listing_type ≡ guarded_type
    → is_duplicate env.urls
        (key_of env.urls p.endpoint_url)
        p.submitted_by
        none
        (is_test_name p.name)
        (record (new_row env.new_id env.wall p) { endpoint_key = key_of env.urls p.endpoint_url })
      ≡ true
unfolding new_row
own_duplicate env p offered =
    rw
      (
        eq_refl (key_of env.urls p.endpoint_url),
        eq_refl (lower p.submitted_by),
        bool-same (is_test_name p.name),
        offered,
      )
      refl

-- An insert that succeeded after the check found nothing: the check now finds its row.
insert_row-found :
    (env : Env) (p : ListingCreate) (st st' : State) (r : Listing)
    → p.listing_type ≡ guarded_type
    → duplicate_of env p st.db ≡ none
    → insert_row env p st ≡ (ok r, st')
    → (duplicate_of env p st'.db ≡ some r) × (st'.throttle ≡ st.throttle)
unfolding insert_row Store.create_listing insert find_active_duplicate ◌>>=◌
insert_row-found env p st st' r offered nothing made =
    elim (Bool-cases (env.storable (new_row env.new_id env.wall p))) [
      | inr refused ↦ absurd (ground (arith, rw refused at made))
      | inl stored ↦ elim (Bool-cases (any (clash row) st.db.listings)) [
        | inl e ↦ absurd (ground (arith, rw (stored, e) at made))
        | inr e ↦
            let done : (
              ok row,
              record st { db = record st.db { listings = st.db.listings ++ row ∷ [] } },
            )
                ≡ (ok r, st') =
              rw (stored, e) at made in
            let same_row : row ≡ r =
              ground (arith, ap (λ (x : Result Listing × State). x.0) done) in
            let same_state = ap (λ (x : Result Listing × State). x.1) done in
            let own : find_active_duplicate env.urls p.endpoint_url p.submitted_by none
                  (is_test_name p.name) (record st.db { listings = st.db.listings ++ row ∷ [] })
                ≡ some row =
              find-append _ st.db.listings row nothing (own_duplicate env p offered) in
            (
              ap (λ (x : State). duplicate_of env p x.db) (sym same_state) ∙ own ∙ ap some same_row,
              ap (λ (x : State). x.throttle) (sym same_state),
            )
      ]
    ]
  where
    row : Listing
    row = record (new_row env.new_id env.wall p) { endpoint_key = key_of env.urls p.endpoint_url }

refuse_duplicate-Passed :
    (env : Env) (p : ListingCreate) (st st' : State) (u : Unit {0})
    → p.listing_type ≡ guarded_type
    → refuse_duplicate env p st ≡ (ok u, st')
    → (duplicate_of env p st.db ≡ none) × (st' ≡ st)
unfolding refuse_duplicate
refuse_duplicate-Passed env p st st' u offered passed =
    let guarded : (p.listing_type == guarded_type) ≡ true = rw offered refl in
    go (duplicate_of env p st.db) refl (rw guarded at passed)
  where
    go :
        (o : Option Listing)
        → duplicate_of env p st.db ≡ o
        → refuse_found o st ≡ (ok u, st')
        → (duplicate_of env p st.db ≡ none) × (st' ≡ st)
    go none e q = (e, sym (ap (λ (x : Result (Unit {0}) × State). x.1) q))
    go (some r) e q = absurd (ground arith)

second_refused :
    (env : Env) (p : ListingCreate) (st : State) (r : Listing)
    → IsQuiet env
    → is_reserved_address p.submitted_by ≡ false
    → p.listing_type ≡ guarded_type
    → is_throttled st.throttle env.mono ≡ true
    → duplicate_of env p st.db ≡ some r
    → create_valid env p st ≡ (err (duplicate_error r.id), st)
unfolding create_valid run_purge maybe_purge refuse_duplicate ◌>>=◌
second_refused env p st r quiet fine offered throttled found =
    let guarded : (p.listing_type == guarded_type) ≡ true = rw offered refl in
    rw (fine, quiet 0 st.db, throttled, quiet 1 st.db, guarded, found) refl

-- An offering that was created is refused when it is sent again while no other request runs and no
-- purge is due: the handler, which runs after the rate limit, ends in a 409 that names the first row,
-- and nothing is written.
pub create_again_refused :
    (env again : Env) (p : ListingCreate) (st st' : State) (r : Listing)
    → IsQuiet env
    → IsQuiet again
    → again.urls ≡ env.urls
    → p.listing_type ≡ guarded_type
    → create_valid env p st ≡ (ok r, st')
    → is_throttled st'.throttle again.mono ≡ true
    → create_valid again p st' ≡ (err (duplicate_error r.id), st')
unfolding create_valid run_purge
create_again_refused env again p st st' r quiet quiet' urls offered made throttled =
    let a = bind-Passed _ _ st st' r made in
    let (fine, at1) =
      raise_if-Passed (is_reserved_address p.submitted_by) _ st a.middle a.value a.first in
    let b = bind-Passed _ _ a.middle st' r a.rest in
    let c = bind-Passed _ _ b.middle st' r b.rest in
    let d = bind-Passed _ _ c.middle st' r c.rest in
    let e = bind-Passed _ _ d.middle st' r d.rest in
    let (nothing, at5) = refuse_duplicate-Passed env p d.middle e.middle e.value offered e.first in
    let f = bind-Passed _ _ e.middle st' r e.rest in
    let at6 : f.middle ≡ record e.middle { db = env.between 2 e.middle.db } =
      sym (ap (λ (x : Result (Unit {0}) × State). x.1) f.first) in
    let at7 : f.middle ≡ d.middle =
      at6 ∙ ap (λ db. record e.middle { db = db }) (quiet 2 e.middle.db) ∙ at5 in
    let found = insert_row-found env p f.middle st' r offered (rw at7 nothing) f.rest in
    second_refused again p st' r quiet' fine offered throttled (rw urls found.0)
