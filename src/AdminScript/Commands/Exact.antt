-- ===== src/AdminScript/Commands/Exact.antt =====
-- scripts/admin_update_listing.py: which rows an applied command can change.
use agent_discovery_board.Prelude.{
  ℕ, String, ◌≡◌, refl, ap, ◌∙◌, inl, inr, Bool, true, false, not, Option, none, some, List, [],
  ◌∷◌, arith, ◌==◌, Bool-cases, or_else, keep, find, find_sound, is_in,
}
use mathlib.Core.Path.{subst}
use agent_discovery_board.Listing.{Listing}
use agent_discovery_board.Store.{Db, wrote, has_id, others, replace, update_where}
use agent_discovery_board.Store.Writes.{HasKey, IsConsistent, update_where-IsConsistent}
use agent_discovery_board.ImportStore.{is_expired_test}
use agent_discovery_board.ImportStore.Keeps.{keep-IsConsistent}
use agent_discovery_board.AdminScript.{Args, ScriptState, ScriptEnv, Values}
use agent_discovery_board.AdminScript.Fields.{assign_fields}
use agent_discovery_board.AdminScript.Commands.{
  target, guard, deletes, purges, cutoff, set_fields, main,
}
use agent_discovery_board.AdminScript.Commands.Tables.{main-Steps}

-- A filter that drops only rows outside `p` keeps those of `p`.
keep-keep :
    (p q : Listing → Bool) (rows : List Listing)
    → ((r : Listing) → p r ≡ true → q r ≡ true)
    → keep p (keep q rows) ≡ keep p rows
keep-keep p q [] h = refl
keep-keep p q (r ∷ rows) h = elim (Bool-cases (q r)) [
  | inl e ↦ elim (Bool-cases (p r)) [
    | inl k ↦ rw (e, k) (ap (λ xs. r ∷ xs) (keep-keep p q rows h))
    | inr k ↦ rw (e, k) (keep-keep p q rows h)
  ]
  | inr e ↦ elim (Bool-cases (p r)) [
    | inl k ↦ absurd (ground (arith, e, h r k))
    | inr k ↦ rw (e, k) (keep-keep p q rows h)
  ]
]

others-replace :
    (id : String) (new : Listing) (rows : List Listing)
    → has_id id new ≡ true
    → others id (replace id new rows) ≡ others id rows
unfolding replace
others-replace id new [] h = refl
others-replace id new (r ∷ rows) h = elim (Bool-cases (has_id id r)) [
  | inl e ↦ rw (e, h) (others-replace id new rows h)
  | inr e ↦ rw (e, e) (ap (λ xs. r ∷ xs) (others-replace id new rows h))
]

update_where-others :
    (id : String) (cond : Listing → Bool) (set : Listing → Listing) (r : Listing) (db db' : Db)
    → ((x : Listing) → (set x).id ≡ x.id)
    → update_where id cond set db ≡ wrote r db'
    → others id db'.listings ≡ others id db.listings
unfolding update_where
update_where-others id cond set r db db' same_id e = go (find (has_id id) db.listings) refl
  where
    go :
        (o : Option Listing)
        → find (has_id id) db.listings ≡ o
        → others id db'.listings ≡ others id db.listings
    go none p = absurd (ground arith)
    go (some x) p =
        let named : has_id id (set x) ≡ true =
          ap (λ i. i == id) (same_id x) ∙ find_sound (has_id id) db.listings x p in
        let same : record db { listings = replace id (set x) db.listings } ≡ db' = ground arith in
        subst (λ (d : Db). others id d.listings ≡ others id db.listings) same
          (others-replace id (set x) db.listings named)

module _ (env : ScriptEnv) (args : Args) where
  -- The rows that meet `p` are the same, in the same order.
  abbrev Same : (Listing → Bool) → Db → Db → Type 0
  Same p a b = keep p b.listings ≡ keep p a.listings

  abbrev is_other : Listing → Bool
  is_other r = not (has_id (target env args) r)

  spared :
      (expected : Values) (r : Listing)
      → is_other r ≡ true
      → not (deletes env args expected r) ≡ true
  spared expected r e = ground (arith, e)

  set_fields-id :
      (fields : List String) (final x : Listing) → (set_fields env args fields final x).id ≡ x.id
  unfolding set_fields assign_fields
  set_fields-id fields final x = refl

  -- A run that is no purge, applied or not and however it ends, changes or deletes no listing but the one
  -- that it names, if no one else writes meanwhile.
  pub spares_others :
      (st : ScriptState)
      → args.purge_test ≡ false
      → ((n : ℕ) (db : Db) → env.between n db ≡ db)
      → others (or_else args.id "") (main env args st).1.db.listings
        ≡ others (or_else args.id "") st.db.listings
  spares_others st no_purge alone =
      main-Steps env args (Same is_other) (λ db. refl) (λ a b c p q. q ∙ p)
        (λ n db. ap (λ (d : Db). keep is_other d.listings) (alone n db))
        (λ real expected db. keep-keep is_other _ db.listings (spared expected))
        (λ purge rows db. absurd (ground (arith, purge, no_purge)))
        (λ real expected fields final r db db' e.
          update_where-others (target env args) (guard env args expected)
            (set_fields env args fields final) r db db' (set_fields-id fields final) e)
        st

  abbrev is_kept : Listing → Bool
  is_kept r = not (is_expired_test (cutoff env args) r)

  kept :
      (rows : List Listing) (r : Listing) → is_kept r ≡ true → not (purges env args rows r) ≡ true
  kept rows r e = ground (arith, e)

  set_fields-HasKey :
      (fields : List String) (final x : Listing)
      → HasKey env.urls x
      → HasKey env.urls (set_fields env args fields final x)
  unfolding set_fields assign_fields
  set_fields-HasKey fields final x h = elim (Bool-cases (is_in "endpoint_url" fields)) [
    | inl e ↦ rw e refl
    | inr e ↦ rw e h
  ]

  -- Whatever a run is asked to do, it keeps the tables consistent: unique ids, no duplicate active offering,
  -- no duplicate import, and keys that match the URLs, if those who write meanwhile do.
  pub main-IsConsistent :
      (st : ScriptState)
      → ((n : ℕ) (db : Db) → IsConsistent env.urls db → IsConsistent env.urls (env.between n db))
      → IsConsistent env.urls st.db
      → IsConsistent env.urls (main env args st).1.db
  main-IsConsistent st fair =
      main-Steps env args (λ a b. IsConsistent env.urls a → IsConsistent env.urls b) (λ db c. c)
        (λ a b c p q x. q (p x)) fair
        (λ real expected db. keep-IsConsistent env.urls _ db.do_not_import db)
        (λ purge rows db. keep-IsConsistent env.urls _ db.do_not_import db)
        (λ real expected fields final r db db' e c.
          update_where-IsConsistent env.urls (target env args) (guard env args expected)
            (set_fields env args fields final) r db db' c (set_fields-HasKey fields final) e)
        st

-- A purge deletes expired test listings only.
pub purge_spares_others :
    (env : ScriptEnv) (args : Args) (st : ScriptState)
    → args.purge_test ≡ true
    → ((n : ℕ) (db : Db) → env.between n db ≡ db)
    → keep (is_kept env args) (main env args st).1.db.listings
      ≡ keep (is_kept env args) st.db.listings
purge_spares_others env args st purge alone =
    main-Steps env args (Same env args (is_kept env args)) (λ db. refl) (λ a b c p q. q ∙ p)
      (λ n db. ap (λ (d : Db). keep (is_kept env args) d.listings) (alone n db))
      (λ real expected db. absurd (ground (arith, purge, real)))
      (λ is_purge rows db. keep-keep (is_kept env args) _ db.listings (kept env args rows))
      (λ real expected fields final r db db' e. absurd (ground (arith, purge, real))) st
