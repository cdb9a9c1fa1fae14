-- ===== src/Board/Search.antt =====
-- app/api/routes/listings.py: `search_listings` and `list_facets`, which GET /listings, GET /listings/facets
-- and two tools of the MCP server call.
pub mod Walk
pub mod Safe
pub mod Bounds
pub mod Crash
use agent_discovery_board.Prelude.{
  ℕ, String, Bool, true, false, not, ◌&&◌, ◌||◌, Option, none, some, List, [], ◌∷◌, ◌==◌, ltb, leb,
  eqb, if◌then◌else◌, is_some, or_else, any, is_in, str_len, ℤ, pos, negsuc, map,
}
use agent_discovery_board.Errors.{
  Result, ok, err, crash, api_error, validation_error, invalid_pagination, invalid_cursor,
  invalid_task_category,
}
use agent_discovery_board.Listing.{Status, active, inactive, Listing}
use agent_discovery_board.Models.{task_categories}
use agent_discovery_board.Models.Payment.{is_valid_caip2_id}
use agent_discovery_board.Activity.{last_activity_at}
use agent_discovery_board.Pagination.{
  CursorLibrary, AnyCursor, encode_activity_cursor, encode_rank_cursor, encode_similarity_cursor,
  resolve_cursor,
}
use agent_discovery_board.Search.{
  Filter, Engine, Mode, by_activity, by_rank, by_similarity, Found, list_listings, is_bindable,
  last_row,
}
use agent_discovery_board.Facets.{Facets, facet_counts}
use agent_discovery_board.Board.Monad.{
  Env, Run, pure, raise, escape, ◌>>=◌, ◌>>◌, raise_if, others_run,
}
use agent_discovery_board.Board.Create.{run_purge}
use agent_discovery_board.Board.Responses.{
  View, Response, to_response, Compact, to_compact_response, or_escape,
}

pub record Query : Type 0 where
  pub listing_type : Option String
  pub task_category : List String
  pub q : Option String
  pub status : Option String
  pub include_test : Bool
  pub claimed : Option Bool
  pub payment_network : Option String
  -- in units of 10 ^ -18 USD, rounded down
  pub max_price : Option ℤ
  pub has_template : Option Bool
  pub stale : Option Bool

pub record Paging : Type 0 where
  pub limit : ℤ
  pub offset : ℤ
  pub cursor : Option String
  pub compact : Bool

-- `takes` says whether psycopg takes a text as a parameter.
pub record SearchLibrary : Type 0 where
  pub cursors : CursorLibrary
  pub engine : Engine
  pub view : View
  pub takes : String → Bool

abbrev if_some {ℓ} : {A : Type ℓ} → (A → Bool) → Option A → Bool
if_some p none = false
if_some p (some a) = p a

abbrev longer_than : ℕ → Option String → Bool
longer_than n = if_some (λ s. ltb n (str_len s))

abbrev is_negative : ℤ → Bool
is_negative (pos n) = false
is_negative (negsuc n) = true

abbrev is_positive : ℤ → Bool
is_positive (pos n) = ltb 0 n
is_positive (negsuc n) = false

abbrev magnitude : ℤ → ℕ
magnitude (pos n) = n
magnitude (negsuc n) = 0

abbrev max_search_limit : ℕ
max_search_limit = 100

abbrev max_search_q_length : ℕ
max_search_q_length = 200

abbrev max_listing_type_filter_length : ℕ
max_listing_type_filter_length = 50

abbrev max_cursor_length : ℕ
max_cursor_length = 512

abbrev is_status : String → Bool
is_status s = s == "active" || s == "inactive"

unfoldable pub check_texts : Query → Run (Unit {0})
check_texts r =
    raise_if (longer_than max_listing_type_filter_length r.listing_type)
      (api_error 422 validation_error)
    >> raise_if (longer_than max_search_q_length r.q) (api_error 422 validation_error)
    >> raise_if (if_some (λ s. not (is_status s)) r.status) (api_error 422 validation_error)

unfoldable pub check_paging : Paging → Run (Unit {0})
check_paging p =
    raise_if (not (is_positive p.limit && leb (magnitude p.limit) max_search_limit))
      (api_error 422 validation_error)
    >> raise_if (is_negative p.offset) (api_error 422 validation_error)
    >> raise_if (is_some p.cursor && not (eqb (magnitude p.offset) 0))
        (api_error 422 invalid_pagination)
    >> raise_if (longer_than max_cursor_length p.cursor) (api_error 422 invalid_cursor)

-- The price, `_validate_payment_network` and `_validate_task_category_filter`
unfoldable pub check_filters : Query → Run (Unit {0})
unfolding is_valid_caip2_id
check_filters r =
    raise_if (if_some is_negative r.max_price) (api_error 422 validation_error)
    >> raise_if (if_some (λ n. not (is_valid_caip2_id n)) r.payment_network)
        (api_error 422 validation_error)
    >> raise_if (any (λ c. not (is_in c task_categories)) r.task_category)
        (api_error 422 invalid_task_category)

abbrev status_of : String → Status
status_of s = if s == "inactive" then inactive else active

abbrev map_some {ℓ κ} : {A : Type ℓ} {B : Type κ} → (A → B) → Option A → Option B
map_some f none = none
map_some f (some a) = some (f a)

unfoldable pub filter_of : Query → Filter
filter_of r = record {
  status = map_some status_of r.status;
  include_test = r.include_test;
  listing_type = r.listing_type;
  task_categories = r.task_category;
  claimed = r.claimed;
  payment_network = r.payment_network;
  max_price = map_some magnitude r.max_price;
  has_template = r.has_template;
  stale = r.stale;
}

module _ (lib : SearchLibrary) where
  -- The cursor of a row, for the mode of its page.
  unfoldable pub cursor_for : Mode → String → Listing → String
  cursor_for by_activity q r = encode_activity_cursor lib.cursors (last_activity_at r) r.id
  cursor_for by_rank q r =
      encode_rank_cursor lib.cursors (lib.engine.write_score (lib.engine.rank q r)) r.id q
  cursor_for by_similarity q r =
      encode_similarity_cursor lib.cursors (lib.engine.write_score (lib.engine.similarity q r)) r.id
        q

  unfoldable pub next_cursor : Option String → Found → Option String
  unfolding cursor_for last_row
  next_cursor q found =
      if found.has_more
      then map_some (cursor_for found.mode (or_else q "")) (last_row found.rows)
      else none

  abbrev pub with_cursor : Option String → Option Found → Result (Found × Option String)
  with_cursor q none = crash
  with_cursor q (some found) = ok (found, next_cursor q found)

  module _ (f : Filter) (now : ℕ) (q : Option String) (limit offset : ℕ) (rows : List Listing) where
    abbrev pub page_from : Result (Option AnyCursor) → Result (Found × Option String)
    page_from (err e) = err e
    page_from crash = crash
    page_from (ok c) =
        let listed = list_listings lib.engine f lib.view.stale_after now q c limit offset rows in
        if is_bindable lib.takes lib.engine f q c offset then with_cursor q listed else crash

  -- From the cursor's text to the page and the next cursor's text, on one state of the table.
  unfoldable pub read_page :
      Filter
      → (now : ℕ) → Option String
      → Option String
      → (limit offset : ℕ) → List Listing
      → Result (Found × Option String)
  unfolding resolve_cursor list_listings is_bindable next_cursor
  read_page f now q cursor limit offset rows =
      page_from f now q limit offset rows (resolve_cursor lib.cursors cursor q)

pub data Results : Type 0 where
  full_results : List Response → Results
  compact_results : List Compact → Results

-- ListingsPage
pub record Page : Type 0 where
  pub listings : Results
  pub total : ℕ
  pub limit : ℕ
  pub offset : ℕ
  pub next_cursor : Option String

module _ (lib : SearchLibrary) (env : Env) where
  unfoldable pub full : List Listing → Option (List Response)
  unfolding to_response
  full [] = some []
  full (r ∷ rows) = elim (to_response lib.view env.wall r) [
    | none ↦ none
    | some shown ↦ map_some (λ rest. shown ∷ rest) (full rows)
  ]

  abbrev shown : Bool → List Listing → Option Results
  shown true rows = some (compact_results (map to_compact_response rows))
  shown false rows = map_some full_results (full rows)

  unfoldable pub search_listings : Query → Paging → Run Page
  unfolding run_purge check_texts check_paging check_filters filter_of read_page
  search_listings r p = do
    run_purge env
    check_texts r
    check_paging p
    check_filters r
    others_run env 1
    let limit = magnitude p.limit
    let offset = magnitude p.offset
    (found, next) ←
        (λ st. (read_page lib (filter_of r) env.wall r.q p.cursor limit offset st.db.listings, st))
    listings ← or_escape (shown p.compact found.rows)
    pure (record {
      listings = listings;
      total = found.total;
      limit = limit;
      offset = offset;
      next_cursor = next;
    })

  abbrev facets_of : Filter → Option String → List Listing → Result (Facets × Option (String × ℕ))
  facets_of f q rows =
      let counted = facet_counts lib.engine f lib.view.stale_after env.wall q rows in
      if is_bindable lib.takes lib.engine f q none 0 then ok counted else crash

  unfoldable pub list_facets : Query → Run Facets
  unfolding run_purge check_texts check_filters filter_of facet_counts is_bindable
  list_facets r = do
    run_purge env
    check_texts r
    check_filters r
    others_run env 1
    (facets, logged) ← (λ st. (facets_of (filter_of r) r.q st.db.listings, st))
    pure facets
