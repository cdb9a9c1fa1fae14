-- ===== src/Board/Search/Safe.antt =====
-- app/api/routes/listings.py: what a page can hold, and how a search can fail, whatever text a client
-- sends as its cursor.
use agent_discovery_board.Prelude.{
  ℕ, zero, suc, ◌+◌, ◌≤◌, String, ◌≡◌, refl, ap, ◌∙◌, inl, inr, Bool, true, false, Option, none,
  some, List, [], ◌∷◌, arith, ltb, ◌==◌, if◌then◌else◌, Bool-cases, or_else, length, take, drop,
  keep, All,
}
use mathlib.Core.Path.{subst}
use agent_discovery_board.Errors.{Result, ok, err, crash}
use agent_discovery_board.Listing.{Listing}
use agent_discovery_board.Activity.{last_activity_at}
use agent_discovery_board.Pagination.{
  AnyCursor, activity_cursor, rank_cursor, similarity_cursor, resolve_cursor,
}
use agent_discovery_board.Pagination.Binding.{serves, resolve_cursor-serves}
use agent_discovery_board.Search.{
  Filter, Engine, matches, Mode, by_activity, by_rank, by_similarity, Place, paged, Found, page_of,
  page_at, no_page, score_place, activity_place, fallback_threshold, choose_mode, search_in,
  list_listings, is_bindable,
}
use agent_discovery_board.Search.Order.{sort_rows-All}
use agent_discovery_board.Search.Pages.{keep-All}
use agent_discovery_board.Board.Search.{
  SearchLibrary, next_cursor, with_cursor, page_from, read_page,
}

take-All : (P : Listing → Type 0) (n : ℕ) (xs : List Listing) → All P xs → All P (take n xs)
take-All P zero xs h = tt
take-All P (suc n) [] h = tt
take-All P (suc n) (x ∷ xs) (p, h) = (p, take-All P n xs h)

drop-All : (P : Listing → Type 0) (n : ℕ) (xs : List Listing) → All P xs → All P (drop n xs)
drop-All P zero xs h = h
drop-All P (suc n) [] h = tt
drop-All P (suc n) (x ∷ xs) (p, h) = drop-All P n xs h

keep-holds : (p : Listing → Bool) (xs : List Listing) → All (λ r. p r ≡ true) (keep p xs)
keep-holds p [] = tt
keep-holds p (x ∷ xs) = elim (Bool-cases (p x)) [
  | inl e ↦ rw e (e, keep-holds p xs)
  | inr e ↦ rw e (keep-holds p xs)
]

length-take-le : (n : ℕ) (xs : List Listing) → length (take n xs) ≤ n
length-take-le zero xs = omega arith
length-take-le (suc n) [] = omega arith
length-take-le (suc n) (x ∷ xs) = omega (arith, length-take-le n xs)

some_injective : {A : Type 0} {a b : A} → some a ≡ some b → a ≡ b
some_injective {A} {a} {b} e = ground (arith, e)

module _ (P : Listing → Type 0) (limit offset : ℕ) where
  -- At most `limit` rows, each of which has the property.
  pub record IsSafe (found : Found) : Type 0 where
    pub few : length found.rows ≤ limit
    pub all_hold : All P found.rows

  page_of-IsSafe :
      (score : Listing → ℕ) (m : Mode) (query : Option String) (place : Option Place)
      (rows : List Listing)
      → All P rows
      → IsSafe (page_of limit offset score m query place rows)
  unfolding page_of paged
  page_of-IsSafe score m query place rows h = record {
    few = length-take-le limit _;
    all_hold = take-All P limit _ (
        take-All P (limit + 1) _
          (drop-All P offset _ (keep-All P _ _ (sort_rows-All score P rows h))));
  }

  no_page-IsSafe : (m : Mode) (q : String) → IsSafe (no_page limit offset m q)
  no_page-IsSafe m q = record { few = omega arith; all_hold = tt }

  page_at-IsSafe :
      (score : Listing → ℕ) (m : Mode) (query : Option String) (place : Option (Option Place))
      (rows : List Listing) (found : Found)
      → All P rows
      → page_at limit offset score m query place rows ≡ some found
      → IsSafe found
  page_at-IsSafe score m query none rows found h e = absurd (ground arith)
  page_at-IsSafe score m query (some p) rows found h e =
      subst IsSafe (some_injective e) (page_of-IsSafe score m query p rows h)

  search_in-IsSafe :
      (engine : Engine) (q : String) (m : Mode) (cursor : Option AnyCursor) (rows : List Listing)
      (found : Found)
      → All P rows
      → search_in engine q limit offset m cursor rows ≡ some found
      → IsSafe found
  search_in-IsSafe engine q by_rank cursor rows found h e =
      page_at-IsSafe (engine.rank q) by_rank (some q) (score_place engine cursor) _ found
        (keep-All P (engine.is_match q) rows h) e
  search_in-IsSafe engine q by_similarity cursor rows found h e =
      elim (Bool-cases engine.trigram_available) [
        | inl t ↦
            page_at-IsSafe (engine.similarity q) by_similarity (some q) (score_place engine cursor)
              _ found (keep-All P (engine.is_similar q) rows h) (rw t at e)
        | inr t ↦ subst IsSafe (some_injective (rw t at e)) (no_page-IsSafe by_similarity q)
      ]
  search_in-IsSafe engine q by_activity cursor rows found h e =
      elim (Bool-cases engine.trigram_available) [
        | inl t ↦
            page_at-IsSafe (engine.similarity q) by_activity (some q) (score_place engine cursor) _
              found (keep-All P (engine.is_similar q) rows h) (rw t at e)
        | inr t ↦ subst IsSafe (some_injective (rw t at e)) (no_page-IsSafe by_activity q)
      ]

module _ (lib : SearchLibrary) (f : Filter) (now : ℕ) (q : Option String) (limit offset : ℕ)
    (rows : List Listing) where
  abbrev Fits : Listing → Type 0
  Fits r = matches f lib.view.stale_after now r ≡ true

  abbrev listed : Option AnyCursor → Option Found
  listed c = list_listings lib.engine f lib.view.stale_after now q c limit offset rows

  listed-IsSafe :
      (c : Option AnyCursor) (found : Found)
      → listed c ≡ some found
      → IsSafe Fits limit offset found
  unfolding list_listings
  listed-IsSafe c found e =
      let fits = keep-holds (matches f lib.view.stale_after now) rows in
      elim (Bool-cases (or_else q "" == "")) [
        | inl browse ↦
            page_at-IsSafe Fits limit offset last_activity_at by_activity none (activity_place c) _
              found fits (rw browse at e)
        | inr asked ↦
            search_in-IsSafe Fits limit offset lib.engine (or_else q "") _ c _ found fits
              (rw asked at e)
      ]

  -- Whatever text a client sends as its cursor, and with any query, a page has at most as many rows as its
  -- limit, and only rows that meet the filters.
  pub page_safe :
      (cursor : Option String) (found : Found) (next : Option String)
      → read_page lib f now q cursor limit offset rows ≡ ok (found, next)
      → (length found.rows ≤ limit)
        × All (λ r. matches f lib.view.stale_after now r ≡ true) found.rows
  unfolding read_page
  page_safe cursor found next e = from_result (resolve_cursor lib.cursors cursor q) found next e
    where
      from_page :
          (c : Option AnyCursor) (page : Option Found) (found : Found) (next : Option String)
          → listed c ≡ page
          → with_cursor lib q page ≡ ok (found, next)
          → (length found.rows ≤ limit)
            × All (λ r. matches f lib.view.stale_after now r ≡ true) found.rows
      from_page c none found next h e = absurd (ground arith)
      from_page c (some page) found next h e =
          let same : found ≡ page = ground (arith, e) in
          let safe = listed-IsSafe c page h in rw same (safe.few, safe.all_hold)

      from_result :
          (r : Result (Option AnyCursor)) (found : Found) (next : Option String)
          → page_from lib f now q limit offset rows r ≡ ok (found, next)
          → (length found.rows ≤ limit)
            × All (λ r. matches f lib.view.stale_after now r ≡ true) found.rows
      from_result (err x) found next e = absurd (ground arith)
      from_result crash found next e = absurd (ground arith)
      from_result (ok c) found next e =
          elim (Bool-cases (is_bindable lib.takes lib.engine f q c offset)) [
            | inl taken ↦ from_page c (listed c) found next refl (rw taken at e)
            | inr refused ↦ absurd (ground (arith, rw refused at e))
          ]

  either_listed :
      (b : Bool) (x y : Found) → (page : Found) × ((if b then some x else some y) ≡ some page)
  either_listed true x y = (x, refl)
  either_listed false x y = (y, refl)

  -- A cursor that has been bound to the query is one that the listing of its mode reads.
  listed-bound :
      (c : Option AnyCursor)
      → ((a : AnyCursor) → c ≡ some a → serves lib.cursors q a ≡ true)
      → (page : Found) × (listed c ≡ some page)
  unfolding list_listings choose_mode serves
  listed-bound none bound = elim (Bool-cases (or_else q "" == "")) [
    | inl browse ↦ rw browse (_, refl)
    | inr asked ↦
        let m = keep (matches f lib.view.stale_after now) rows in
        elim (Bool-cases
          (ltb fallback_threshold (length (keep (lib.engine.is_match (or_else q "")) m)))) [
            | inl hits ↦ rw (asked, hits) (_, refl)
            | inr hits ↦ rw (asked, hits) (either_listed lib.engine.trigram_available _ _)
          ]
  ]
  listed-bound (some (activity_cursor t id)) bound =
      let browse : (or_else q "" == "") ≡ true = bound (activity_cursor t id) refl in
      rw browse (_, refl)
  listed-bound (some (rank_cursor v id h)) bound =
      let asked : (or_else q "" == "") ≡ false = ground (arith, bound (rank_cursor v id h) refl) in
      rw asked (_, refl)
  listed-bound (some (similarity_cursor v id h)) bound =
      let asked : (or_else q "" == "") ≡ false =
        ground (arith, bound (similarity_cursor v id h) refl) in
      rw asked (either_listed lib.engine.trigram_available _ _)

  -- Where the cursor is resolved and the values of the statements are taken, the page is read.
  pub page_served :
      (cursor : Option String) (c : Option AnyCursor)
      → resolve_cursor lib.cursors cursor q ≡ ok c
      → is_bindable lib.takes lib.engine f q c offset ≡ true
      → (page : Found) × (next : Option String) × (read_page lib f now q cursor limit offset rows
          ≡ ok (page, next))
  unfolding read_page resolve_cursor
  page_served cursor c e taken =
      let (page, h) = listed-bound c (bound_by cursor c e) in
      let served : page_from lib f now q limit offset rows (ok c)
          ≡ ok (page, next_cursor lib q page) =
        rw taken (ap (with_cursor lib q) h) in
      (page, next_cursor lib q page, ap (page_from lib f now q limit offset rows) e ∙ served)
    where
      bound_by :
          (cursor : Option String) (c : Option AnyCursor)
          → resolve_cursor lib.cursors cursor q ≡ ok c
          → (a : AnyCursor) → c ≡ some a
          → serves lib.cursors q a ≡ true
      bound_by none none e a h = absurd (ground arith)
      bound_by none (some b) e a h = absurd (ground arith)
      bound_by (some text) c e a h = resolve_cursor-serves lib.cursors text q a (e ∙ ap ok h)
