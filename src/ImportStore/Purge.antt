-- ===== src/ImportStore/Purge.antt =====
-- The purge of test listings: real rows stay, and at most a batch goes.
use agent_discovery_board.Prelude.{
  ℕ, zero, suc, ◌+◌, ◌≤◌, String, ◌≡◌, refl, ap, ◌∙◌, inl, inr, Bool, true, false, not, ◌&&◌, ◌||◌,
  List, [], ◌∷◌, map, arith, ◌==◌, eq_iff, Bool-cases, length, take, keep, any, All, is_in,
}
use agent_discovery_board.Listing.{Listing}
use agent_discovery_board.Store.{Db, clash}
use agent_discovery_board.Store.Unique.{IsUnique}
use agent_discovery_board.ImportStore.{
  insert_by_age, sort_by_age, is_expired_test, purge_expired_test_listings,
}
use mathlib.Core.Path.{subst}
use agent_discovery_board.ImportStore.Keeps.{keep-IsUnique}

abbrev ids : List Listing → List String
ids = map (λ (r : Listing). r.id)

is_in-take :
    (s : String) (n : ℕ) (rs : List Listing)
    → is_in s (ids rs) ≡ false
    → is_in s (ids (take n rs)) ≡ false
is_in-take s zero rs h = refl
is_in-take s (suc n) [] h = refl
is_in-take s (suc n) (r ∷ rs) h = ground (arith, is_in-take s n rs)

is_in-insert :
    (s : String) (r : Listing) (rs : List Listing)
    → is_in s (ids (insert_by_age r rs)) ≡ (s == r.id || is_in s (ids rs))
unfolding insert_by_age
is_in-insert s r [] = refl
is_in-insert s r (x ∷ rs) = ground (arith, is_in-insert s r rs)

is_in-sort : (s : String) (rs : List Listing) → is_in s (ids (sort_by_age rs)) ≡ is_in s (ids rs)
unfolding sort_by_age
is_in-sort s [] = refl
is_in-sort s (r ∷ rs) = is_in-insert s r (sort_by_age rs) ∙ rw (is_in-sort s rs) refl

id_of_clash :
    (r x : Listing) → clash r x ≡ false → ((r.id == x.id) ≡ false) × ((x.id == r.id) ≡ false)
unfolding clash
id_of_clash r x h = ground (arith, eq_iff r.id x.id, eq_iff x.id r.id)

absent_id :
    (p : Listing → Bool) (r : Listing) (rs : List Listing)
    → any (clash r) rs ≡ false
    → is_in r.id (ids (keep p rs)) ≡ false
absent_id p r [] h = refl
absent_id p r (x ∷ rs) h =
    let apart : clash r x ≡ false = ground arith in
    let (differ, _) = id_of_clash r x apart in ground (arith, absent_id p r rs)

-- Rows that a filter leaves out do not share an id with the rows that it keeps.
module _ (p : Listing → Bool) where
  abbrev Safe : List Listing → Listing → Type 0
  Safe kept r = (not (p r) && is_in r.id (ids kept)) ≡ false

  Safe-cons :
      (r : Listing) (kept rs : List Listing)
      → any (clash r) rs ≡ false
      → All (Safe kept) rs
      → All (Safe (r ∷ kept)) rs
  Safe-cons r kept [] apart h = tt
  Safe-cons r kept (x ∷ rs) apart (one, h) = (
    let clear : clash r x ≡ false = ground arith in
        let (_, differ) = id_of_clash r x clear in ground arith,
    Safe-cons r kept rs (ground arith) h,
  )

  keep_yes : (r : Listing) (rs : List Listing) → p r ≡ true → r ∷ keep p rs ≡ keep p (r ∷ rs)
  keep_yes r rs e = rw e refl

  keep_no : (r : Listing) (rs : List Listing) → p r ≡ false → keep p rs ≡ keep p (r ∷ rs)
  keep_no r rs e = rw e refl

  keep-Safe : (rs : List Listing) → IsUnique rs → All (Safe (keep p rs)) rs
  keep-Safe [] u = tt
  keep-Safe (r ∷ rs) (first, u) = elim (Bool-cases (p r)) [
    | inl e ↦
        subst (λ kept. All (Safe kept) (r ∷ rs)) (keep_yes r rs e)
          (ground arith, Safe-cons r (keep p rs) rs first (keep-Safe rs u))
    | inr e ↦
        subst (λ kept. All (Safe kept) (r ∷ rs)) (keep_no r rs e)
          (let gone = absent_id p r rs first in ground arith, keep-Safe rs u)
  ]

-- A filter by ids that spares the rows outside `p` keeps all of those, in their order.
module _ (p : Listing → Bool) (batch : List String) where
  abbrev real : Listing → Bool
  real r = not (p r)

  abbrev stays : Listing → Bool
  stays r = not (is_in r.id batch)

  keep-real :
      (rs : List Listing)
      → All (λ (r : Listing). (not (p r) && is_in r.id batch) ≡ false) rs
      → keep real (keep stays rs) ≡ keep real rs
  keep-real [] h = refl
  keep-real (r ∷ rs) (one, h) = ground (arith, keep-real rs h)

module _ (cutoff limit : ℕ) where
  batch_Safe :
      (r : Listing) (rs : List Listing)
      → (not (is_expired_test cutoff r) && is_in r.id (ids (keep (is_expired_test cutoff) rs)))
        ≡ false
      → (not (is_expired_test cutoff r)
          && is_in r.id (ids (take limit (sort_by_age (keep (is_expired_test cutoff) rs)))))
        ≡ false
  batch_Safe r rs h = elim (Bool-cases (is_expired_test cutoff r)) [
    | inl e ↦ rw e refl
    | inr e ↦ rw e (
        is_in-take r.id limit (sort_by_age (keep (is_expired_test cutoff) rs))
          (is_in-sort r.id (keep (is_expired_test cutoff) rs) ∙ (rw e at h)))
  ]

  All-batch_Safe :
      (rs all_rows : List Listing)
      → All (Safe (is_expired_test cutoff) (keep (is_expired_test cutoff) all_rows)) rs
      → All
          (λ (r : Listing).
            (not (is_expired_test cutoff r)
              && is_in r.id
                  (ids (take limit (sort_by_age (keep (is_expired_test cutoff) all_rows)))))
            ≡ false)
          rs
  All-batch_Safe [] all_rows h = tt
  All-batch_Safe (r ∷ rs) all_rows (one, h) =
      (batch_Safe r all_rows one, All-batch_Safe rs all_rows h)

  -- The purge removes expired test listings only: the other rows stay, all of them and in their
  -- order.
  pub purge_spares :
      (db : Db)
      → IsUnique db.listings
      → keep
          (λ r. not (is_expired_test cutoff r))
          (purge_expired_test_listings cutoff limit db).1.listings
        ≡ keep (λ r. not (is_expired_test cutoff r)) db.listings
  unfolding purge_expired_test_listings
  purge_spares db u =
      keep-real (is_expired_test cutoff)
        (ids (take limit (sort_by_age (keep (is_expired_test cutoff) db.listings)))) db.listings
        (All-batch_Safe db.listings db.listings (keep-Safe (is_expired_test cutoff) db.listings u))

length-take-le : (n : ℕ) (rs : List Listing) → length (ids (take n rs)) ≤ n
length-take-le zero rs = omega arith
length-take-le (suc n) [] = omega arith
length-take-le (suc n) (r ∷ rs) = omega (arith, length-take-le n rs)

-- Deleting by one id removes one row at most.
keep_other :
    (i : String) (rs : List Listing)
    → (is_in i (ids rs)) ≡ false
    → length (keep (λ r. not (r.id == i)) rs) ≡ length rs
keep_other i [] h = refl
keep_other i (r ∷ rs) h = ground (arith, keep_other i rs, eq_iff r.id i, eq_iff i r.id)

keep-true : (rs : List Listing) → keep (λ r. true) rs ≡ rs
keep-true [] = refl
keep-true (r ∷ rs) = ap (◌∷◌ r) (keep-true rs)

delete_one :
    (i : String) (rs : List Listing)
    → IsUnique rs
    → length rs ≤ length (keep (λ r. not (r.id == i)) rs) + 1
delete_one i [] u = omega arith
delete_one i (r ∷ rs) (first, u) =
    let absent = absent_id (λ x. true) r rs first in
    let same = keep-true rs in ground (arith, delete_one i rs u, keep_other i rs, eq_iff r.id i)

delete_ids :
    (batch : List String) (rs : List Listing)
    → IsUnique rs
    → length rs ≤ length (keep (λ r. not (is_in r.id batch)) rs) + length batch
delete_ids [] rs u = rw (keep-true rs) (omega arith)
delete_ids (i ∷ batch) rs u = omega (
  arith,
  delete_one i rs u,
  delete_ids batch (keep (λ r. not (r.id == i)) rs) (keep-IsUnique (λ r. not (r.id == i)) rs u),
  keep_both rs,
)
  where
    keep_both :
        (xs : List Listing)
        → length (keep (λ r. not (is_in r.id batch)) (keep (λ r. not (r.id == i)) xs))
          ≡ length (keep (λ r. not (is_in r.id (i ∷ batch))) xs)
    keep_both [] = refl
    keep_both (x ∷ xs) = ground (arith, keep_both xs)

-- One purge names at most `limit` ids, and removes no more rows than that.
pub purge_bounded :
    (cutoff limit : ℕ) (db : Db)
    → IsUnique db.listings
    → (length (purge_expired_test_listings cutoff limit db).0 ≤ limit)
      × (length db.listings
          ≤ length (purge_expired_test_listings cutoff limit db).1.listings + limit)
unfolding purge_expired_test_listings
purge_bounded cutoff limit db u =
    let batch = sort_by_age (keep (is_expired_test cutoff) db.listings) in
    let few = length-take-le limit batch in
    let gone = delete_ids (ids (take limit batch)) db.listings u in (omega arith, omega arith)
