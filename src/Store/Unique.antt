-- ===== src/Store/Unique.antt =====
-- The unique indexes as an invariant of the table, and what inserting and replacing a row keep of it.
use agent_discovery_board.Prelude.{
  String, ◌≡◌, refl, ◌∙◌, inl, inr, Bool, true, false, ◌&&◌, ◌||◌, Option, none, some, List, [],
  ◌∷◌, ◌++◌, arith, ◌==◌, eq_iff, Bool-cases, any, find, lower,
}
use agent_discovery_board.Listing.{Listing}
use agent_discovery_board.Store.{
  same_bool, same_source, is_guarded, same_offering, same_import, clash, has_id, others, replace,
}

-- No two rows of the table clash.
abbrev pub IsUnique : List Listing → Type 0
IsUnique [] = Unit
IsUnique (r ∷ rs) = (any (clash r) rs ≡ false) × IsUnique rs

eq_sym : (a b : String) → (a == b) ≡ (b == a)
eq_sym a b = ground (arith, eq_iff a b, eq_iff b a)

same_source_sym : (a b : Option String) → same_source a b ≡ same_source b a
same_source_sym (some s) (some t) = eq_sym s t
same_source_sym none none = refl
same_source_sym none (some t) = refl
same_source_sym (some s) none = refl

and_swap : (a b : Bool) → (a && b) ≡ (b && a)
and_swap a b = ground arith

same_bool_sym : (a b : Bool) → same_bool a b ≡ same_bool b a
same_bool_sym a b = ground arith

same_offering_sym : (a b : Listing) → same_offering a b ≡ same_offering b a
unfolding same_offering
same_offering_sym a b =
    rw
      (
        and_swap (is_guarded a) (is_guarded b),
        same_bool_sym a.is_test b.is_test,
        eq_sym a.endpoint_key b.endpoint_key,
        eq_sym (lower a.submitted_by) (lower b.submitted_by),
      )
      refl

same_import_sym : (a b : Listing) → same_import a b ≡ same_import b a
unfolding same_import
same_import_sym a b =
    rw (same_source_sym a.source b.source, eq_sym a.endpoint_key b.endpoint_key) refl

pub clash_sym : (a b : Listing) → clash a b ≡ clash b a
unfolding clash
clash_sym a b = rw (eq_sym a.id b.id, same_offering_sym a b, same_import_sym a b) refl

any-append :
    (r x : Listing) (rs : List Listing)
    → any (clash r) (rs ++ x ∷ []) ≡ (any (clash r) rs || clash r x)
any-append r x [] = ground arith
any-append r x (y ∷ rs) = ground (arith, any-append r x rs)

pub append-IsUnique :
    (rs : List Listing) (x : Listing)
    → IsUnique rs
    → any (clash x) rs ≡ false
    → IsUnique (rs ++ x ∷ [])
append-IsUnique [] x u clear = (refl, tt)
append-IsUnique (r ∷ rs) x (first, u) clear =
    (ground (arith, any-append r x rs, clash_sym r x), append-IsUnique rs x u (ground arith))

-- A row with the id of a row of the table is, beside the others, the only one that it can clash with.
module _ (id : String) (new : Listing) where
  any-replace :
      (r : Listing) (rs : List Listing)
      → any (clash r) rs ≡ false
      → clash r new ≡ false
      → any (clash r) (replace id new rs) ≡ false
  unfolding replace
  any-replace r [] clear apart = refl
  any-replace r (x ∷ rs) clear apart = ground (arith, any-replace r rs)

  any-others :
      (r : Listing) (rs : List Listing)
      → any (clash r) rs ≡ false
      → any (clash r) (others id rs) ≡ false
  any-others r [] clear = refl
  any-others r (x ∷ rs) clear = ground (arith, any-others r rs)

  -- Where no row has the id, there is nothing to replace.
  replace-absent : (rs : List Listing) → find (has_id id) rs ≡ none → replace id new rs ≡ rs
  unfolding replace
  replace-absent [] none_there = refl
  replace-absent (r ∷ rs) none_there = ground (arith, replace-absent rs)

  others-absent : (rs : List Listing) → find (has_id id) rs ≡ none → others id rs ≡ rs
  others-absent [] none_there = refl
  others-absent (r ∷ rs) none_there = ground (arith, others-absent rs)

  clash_of_same_id : (r x : Listing) → has_id id r ≡ true → has_id id x ≡ true → clash r x ≡ true
  unfolding clash
  clash_of_same_id r x p q = ground (arith, eq_iff r.id id, eq_iff x.id id, eq_iff r.id x.id)

  absent_of_unique :
      (r : Listing) (rs : List Listing)
      → has_id id r ≡ true
      → any (clash r) rs ≡ false
      → find (has_id id) rs ≡ none
  absent_of_unique r [] p clear = refl
  absent_of_unique r (x ∷ rs) p clear =
      ground (arith, absent_of_unique r rs p, clash_of_same_id r x p)

  pub replace-IsUnique :
      (rs : List Listing)
      → IsUnique rs
      → any (clash new) (others id rs) ≡ false
      → IsUnique (replace id new rs)
  unfolding replace
  replace-IsUnique [] u clear = tt
  replace-IsUnique (r ∷ rs) (first, u) clear = elim (Bool-cases (has_id id r)) [
    | inl here ↦
        let gone = absent_of_unique r rs here first in
        let same = replace-absent rs gone in
        let kept = others-absent rs gone in rw here (rw same (ground arith, u))
    | inr apart ↦
        let new_apart : clash new r ≡ false = ground arith in
        rw apart (
          any-replace r rs first (clash_sym r new ∙ new_apart),
          replace-IsUnique rs u (ground arith),
        )
  ]
