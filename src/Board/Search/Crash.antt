-- ===== src/Board/Search/Crash.antt =====
-- app/api/routes/listings.py: why a search ends in an exception that is no ApiError.
use agent_discovery_board.Prelude.{
  ℕ, String, ◌≡◌, refl, sym, ap, ◌∙◌, inl, inr, ◌⊎◌, Bool, true, false, Option, none, some, List,
  [], ◌∷◌, arith, is_some, All, Bool-cases, Option-cases,
}
use mathlib.Core.Path.{subst}
use agent_discovery_board.Errors.{Result, ok, err, crash}
use agent_discovery_board.Listing.{Listing}
use agent_discovery_board.Pagination.{AnyCursor, resolve_cursor}
use agent_discovery_board.Search.{matches, is_bindable, Found}
use agent_discovery_board.Board.Monad.{State, Env, others_run}
use agent_discovery_board.Board.Create.{run_purge}
use agent_discovery_board.Board.Ends.{EndsAt, Ends, Any, bind-Ends, raise_if-Ends, raise_ifs-Ends}
use agent_discovery_board.Board.Responses.{Response, to_response, or_escape}
use agent_discovery_board.Board.FactTypes.{is_typed}
use agent_discovery_board.Board.Typed.{badge_fits}
use agent_discovery_board.Board.Answers.{not_served}
use agent_discovery_board.Board.Search.{
  Query, Paging, SearchLibrary, magnitude, check_texts, check_paging, check_filters, filter_of,
  page_from, read_page, full, shown, map_some, search_listings,
}
use agent_discovery_board.Board.Search.Safe.{page_safe, page_served}

-- The exception of `_to_response` on a row: its badge, or a fact of the verifier.
abbrev IsUnshown : SearchLibrary → Listing → Type 0
IsUnshown lib row =
    (badge_fits lib.view row ≡ false)
    ⊎ ((is_some row.output_schema ≡ true) × (is_typed lib.view.facts lib.view.snapshot ≡ false))

module _ (lib : SearchLibrary) (env : Env) (r : Query) (p : Paging) where
  abbrev Fits : Listing → Type 0
  Fits row = matches (filter_of r) lib.view.stale_after env.wall row ≡ true

  abbrev AllFit : Found × Option String → Type 0
  AllFit (found, next) = All Fits found.rows

  abbrev Why : Type 0
  Why =
      (resolve_cursor lib.cursors p.cursor r.q ≡ crash)
      ⊎ (((c : Option AnyCursor) × (resolve_cursor lib.cursors p.cursor r.q ≡ ok c)
            × (is_bindable lib.takes lib.engine (filter_of r) r.q c (magnitude p.offset) ≡ false))
          ⊎ ((p.compact ≡ false) × (row : Listing) × Fits row × IsUnshown lib row))

  check_texts-Ends : Ends Any Why (check_texts r)
  unfolding check_texts
  check_texts-Ends = raise_ifs-Ends Why _ _ _ (raise_ifs-Ends Why _ _ _ (raise_if-Ends Why _ _))

  check_paging-Ends : Ends Any Why (check_paging p)
  unfolding check_paging
  check_paging-Ends =
      raise_ifs-Ends Why _ _ _
        (raise_ifs-Ends Why _ _ _ (raise_ifs-Ends Why _ _ _ (raise_if-Ends Why _ _)))

  check_filters-Ends : Ends Any Why (check_filters r)
  unfolding check_filters
  check_filters-Ends = raise_ifs-Ends Why _ _ _ (raise_ifs-Ends Why _ _ _ (raise_if-Ends Why _ _))

  abbrev page_at : List Listing → Result (Found × Option String)
  page_at =
      read_page lib (filter_of r) env.wall r.q p.cursor (magnitude p.limit) (magnitude p.offset)

  read-Ends : (rows : List Listing) → EndsAt AllFit Why (page_at rows)
  unfolding read_page
  read-Ends rows = ended (page_at rows) refl
    where
      limit : ℕ
      limit = magnitude p.limit

      offset : ℕ
      offset = magnitude p.offset

      unread :
          (c : Result (Option AnyCursor))
          → resolve_cursor lib.cursors p.cursor r.q ≡ c
          → page_at rows ≡ crash
          → Why
      unread crash e h = inl e
      unread (err x) e h =
          let refused : err x ≡ crash =
            sym (ap (page_from lib (filter_of r) env.wall r.q limit offset rows) e) ∙ h in
          absurd (ground (arith, refused))
      unread (ok c) e h =
          elim (Bool-cases (is_bindable lib.takes lib.engine (filter_of r) r.q c offset)) [
            | inr refused ↦ inr (inl (c, e, refused))
            | inl taken ↦
                let (page, next, served) =
                  page_served lib (filter_of r) env.wall r.q limit offset rows p.cursor c e taken in
                absurd (ground (arith, served, h))
          ]

      ended : (page : Result (Found × Option String)) → page_at rows ≡ page → EndsAt AllFit Why page
      ended (ok (found, next)) e =
          (page_safe lib (filter_of r) env.wall r.q limit offset rows p.cursor found next e).1
      ended (err x) e = tt
      ended crash e = unread (resolve_cursor lib.cursors p.cursor r.q) refl e

  full-IsUnshown :
      (rows : List Listing)
      → All Fits rows
      → full lib env rows ≡ none
      → (row : Listing) × Fits row × IsUnshown lib row
  unfolding full
  full-IsUnshown [] h e = absurd (ground (arith, e))
  full-IsUnshown (row ∷ rows) (fits, h) e =
      from_first (to_response lib.view env.wall row) (full lib env rows) refl
        (full-IsUnshown rows h) e
    where
      from_first :
          (first : Option Response) (rest : Option (List Response))
          → to_response lib.view env.wall row ≡ first
          → (rest ≡ none → (row : Listing) × Fits row × IsUnshown lib row)
          → (elim first [ none ↦ none | some x ↦ map_some (λ xs. x ∷ xs) rest ]) ≡ none
          → (row : Listing) × Fits row × IsUnshown lib row
      from_first none rest unshown later e = (row, fits, not_served lib.view env.wall row unshown)
      from_first (some x) none here later e = later refl
      from_first (some x) (some xs) here later e = absurd (ground (arith, e))

  shown-Ends :
      (compact : Bool) (rows : List Listing)
      → p.compact ≡ compact
      → All Fits rows
      → Ends Any Why (or_escape (shown lib env compact rows))
  shown-Ends true rows c h st = tt
  shown-Ends false rows c h st = elim (Option-cases (full lib env rows)) [
    | inl e ↦
        let (row, fits, unshown) = full-IsUnshown rows h e in
        rw e (inr (inr (c, row, fits, unshown)))
    | inr (xs, e) ↦ rw e tt
  ]

  search-Ends : Ends Any Why (search_listings lib env r p)
  unfolding search_listings run_purge
  search-Ends =
      bind-Ends Why Any Any (run_purge env) _ (λ st. tt)
        (λ _ _. bind-Ends Why Any Any _ _ check_texts-Ends (λ _ _.
          bind-Ends Why Any Any _ _ check_paging-Ends (λ _ _.
            bind-Ends Why Any Any _ _ check_filters-Ends (λ _ _.
              bind-Ends Why Any Any (others_run env 1) _ (λ st. tt)
                (λ _ _.
                  bind-Ends Why AllFit Any _ _ (λ st. read-Ends st.db.listings)
                    (λ (found, next) fit.
                      bind-Ends Why Any Any _ _ (shown-Ends p.compact found.rows refl fit)
                        (λ _ _ st. tt)))))))

  -- A search, from its purge to its responses, ends in an exception that is no ApiError only if the decoding
  -- of its cursor does, or psycopg or PostgreSQL does not take a text or the offset that its statements
  -- bind, or, where compact results are not asked for, some listing that meets the filters has a badge
  -- with a value of another type than its field, or an output schema while a fact of the verifier is
  -- missing or not of its type.
  pub search_listings_crash :
      (st : State)
      → (search_listings lib env r p st).0 ≡ crash
      → (resolve_cursor lib.cursors p.cursor r.q ≡ crash)
        ⊎ (((c : Option AnyCursor) × (resolve_cursor lib.cursors p.cursor r.q ≡ ok c)
              × (is_bindable lib.takes lib.engine (filter_of r) r.q c (magnitude p.offset) ≡ false))
            ⊎ ((p.compact ≡ false)
                × (row : Listing) × (matches (filter_of r) lib.view.stale_after env.wall row ≡ true)
                × ((badge_fits lib.view row ≡ false)
                    ⊎ ((is_some row.output_schema ≡ true)
                        × (is_typed lib.view.facts lib.view.snapshot ≡ false)))))
  search_listings_crash st e = subst (EndsAt Any Why) e (search-Ends st)
