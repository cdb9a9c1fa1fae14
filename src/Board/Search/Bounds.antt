-- ===== src/Board/Search/Bounds.antt =====
-- app/api/routes/listings.py: `search_listings` as a whole: a page that is served is of a bounded size.
use agent_discovery_board.Prelude.{
  ℕ, ◌≤◌, ◌≡◌, refl, sym, ap, ◌∙◌, inl, inr, ◌⊎◌, Bool, true, false, Option, none, some, List, [],
  ◌∷◌, arith, leb, eqb, not, ◌&&◌, is_some, length, map, ℤ, pos, negsuc,
}
use mathlib.Core.Path.{subst}
use agent_discovery_board.Errors.{ok}
use agent_discovery_board.Listing.{Listing}
use agent_discovery_board.Board.Monad.{State, Env}
use agent_discovery_board.Board.Passed.{bind-Passed, raise_if-Passed}
use agent_discovery_board.Board.Responses.{Response, to_compact_response, to_response, or_escape}
use agent_discovery_board.Board.Search.{
  Query, Paging, SearchLibrary, is_positive, magnitude, check_paging, filter_of, Results,
  full_results, compact_results, Page, full, shown, map_some, search_listings,
}
use agent_discovery_board.Board.Search.Safe.{page_safe}

abbrev count_results : Results → ℕ
count_results (full_results rs) = length rs
count_results (compact_results rs) = length rs

length-map : {A B : Type 0} (f : A → B) (xs : List A) → length (map f xs) ≡ length xs
length-map f [] = refl
length-map f (x ∷ xs) = omega (arith, length-map f xs)

module _ (lib : SearchLibrary) (env : Env) where
  length-full :
      (rows : List Listing) (rs : List Response)
      → full lib env rows ≡ some rs
      → length rs ≡ length rows
  unfolding full
  length-full [] rs e = ground (arith, e)
  length-full (r ∷ rows) rs e =
      from_first (to_response lib.view env.wall r) (full lib env rows) rs refl
        (λ xs. length-full rows xs) e
    where
      from_first :
          (first : Option Response) (rest : Option (List Response)) (rs : List Response)
          → full lib env rows ≡ rest
          → ((xs : List Response) → full lib env rows ≡ some xs → length xs ≡ length rows)
          → (elim first [ none ↦ none | some x ↦ map_some (λ xs. x ∷ xs) rest ]) ≡ some rs
          → length rs ≡ length (r ∷ rows)
      from_first none rest rs h fewer e = absurd (ground arith)
      from_first (some x) none rs h fewer e = absurd (ground arith)
      from_first (some x) (some xs) rs h fewer e =
          let same : x ∷ xs ≡ rs = ground (arith, e) in
          ap length (sym same) ∙ omega (arith, fewer xs h)

  count-shown :
      (compact : Bool) (rows : List Listing) (rs : Results)
      → shown lib env compact rows ≡ some rs
      → count_results rs ≡ length rows
  count-shown true rows rs e =
      let same : compact_results (map to_compact_response rows) ≡ rs = ground (arith, e) in
      ap count_results (sym same) ∙ length-map to_compact_response rows
  count-shown false rows rs e = from_full (full lib env rows) refl e
    where
      from_full :
          (all : Option (List Response))
          → full lib env rows ≡ all
          → map_some full_results all ≡ some rs
          → count_results rs ≡ length rows
      from_full none h e = absurd (ground arith)
      from_full (some xs) h e =
          let same : full_results xs ≡ rs = ground (arith, e) in
          ap count_results (sym same) ∙ length-full rows xs h

-- The guards on the limit, the offset and the cursor.
record IsPaging (p : Paging) : Type 0 where
  enough : (is_positive p.limit && leb (magnitude p.limit) 100) ≡ true
  alone : (is_some p.cursor && not (eqb (magnitude p.offset) 0)) ≡ false

check_paging-Passed :
    (p : Paging) (st st' : State) (u : Unit {0}) → check_paging p st ≡ (ok u, st') → IsPaging p
unfolding check_paging
check_paging-Passed p st st' u e =
    let last = bind-Passed _ _ st st' u e in
    let third = bind-Passed _ _ st last.middle last.value last.first in
    let second = bind-Passed _ _ st third.middle third.value third.first in
    record {
      enough = ground (arith, (raise_if-Passed _ _ st second.middle second.value second.first).0);
      alone = (raise_if-Passed _ _ third.middle last.middle last.value third.rest).0;
    }

or_escape-some :
    {A : Type 0} (a : Option A) (st st' : State) (b : A) → or_escape a st ≡ (ok b, st') → a ≡ some b
or_escape-some none st st' b e = absurd (ground arith)
or_escape-some (some a) st st' b e = ground (arith, e)

ok_injective : {A : Type 0} {a b : A} → ok a ≡ ok b → a ≡ b
ok_injective {A} {a} {b} e = ground (arith, e)

-- A page that is served has a limit between 1 and 100, at most as many listings as its limit, and an
-- offset only where the request had no cursor.
pub record IsBounded (p : Paging) (page : Page) : Type 0 where
  pub enough : 1 ≤ page.limit
  pub bounded : page.limit ≤ 100
  pub few : count_results page.listings ≤ page.limit
  pub alone : (is_some p.cursor ≡ false) ⊎ (page.offset ≡ 0)

limit_lem :
    (z : ℤ)
    → (is_positive z && leb (magnitude z) 100) ≡ true
    → (1 ≤ magnitude z) × (magnitude z ≤ 100)
limit_lem (pos n) e = ground (arith, e)
limit_lem (negsuc n) e = absurd (ground arith)

alone_lem : (c : Bool) (n : ℕ) → (c && not (eqb n 0)) ≡ false → (c ≡ false) ⊎ (n ≡ 0)
alone_lem false n e = inl refl
alone_lem true n e = inr (ground (arith, e))

ap_le : {a b n : ℕ} → a ≡ b → a ≤ n → b ≤ n
ap_le {a} {b} {n} e h = omega (arith, e, h)

pub search_listings-IsBounded :
    (lib : SearchLibrary) (env : Env) (r : Query) (p : Paging) (st st' : State) (page : Page)
    → search_listings lib env r p st ≡ (ok page, st')
    → IsBounded p page
unfolding search_listings
search_listings-IsBounded lib env r p st st' page e =
    let a = bind-Passed _ _ st st' page e in
    let b = bind-Passed _ _ a.middle st' page a.rest in
    let c = bind-Passed _ _ b.middle st' page b.rest in
    let guards = check_paging-Passed p b.middle c.middle c.value c.first in
    let d = bind-Passed _ _ c.middle st' page c.rest in
    let o = bind-Passed _ _ d.middle st' page d.rest in
    let t = bind-Passed _ _ o.middle st' page o.rest in
    let w = bind-Passed _ _ t.middle st' page t.rest in
    let limit = magnitude p.limit in
    let offset = magnitude p.offset in
    let safe =
      page_safe lib (filter_of r) env.wall r.q limit offset o.middle.db.listings p.cursor t.value.0
        t.value.1 (ap (λ x. x.0) t.first) in
    let made = ok_injective (ap (λ x. x.0) w.rest) in
    subst (IsBounded p) made (record {
      enough = (limit_lem p.limit guards.enough).0;
      bounded = (limit_lem p.limit guards.enough).1;
      few =
          ap_le
            (sym (
              count-shown lib env p.compact t.value.0.rows w.value
                (or_escape-some _ t.middle w.middle w.value w.first)))
            safe.0;
      alone = alone_lem (is_some p.cursor) offset guards.alone;
    })
