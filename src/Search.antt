-- ===== src/Search.antt =====
-- app/core/db.py: the browse of GET /listings and its search, in pages that a cursor continues. A
-- statement's rows are those of the sorted table that meet its conditions.
pub mod Order
pub mod Pages
use agent_discovery_board.Prelude.{
  ℕ, zero, suc, ◌+◌, ◌-◌, ◌*◌, ◌/◌, ◌%◌, ◌≤◌, ◌<◌, min, max, String, ◌≡◌, refl, sym, ap, ◌∙◌, ◌≢◌,
  ◌↔◌, ◌⊎◌, inl, inr, Bool, true, false, not, ◌&&◌, ◌||◌, Option, none, some, List, [], ◌∷◌, ◌++◌,
  map, arith, ◌==◌, eq_iff, eq_refl, ltb, leb, eqb, if◌then◌else◌, tests, Bool-cases, Option-cases,
  is_none, is_some, or_else, length, take, drop, keep, any, all, find, length-append,
  length-keep-le, find_sound, find-none, All, str_len, all_chars, any_char, starts_with, is_in,
  le_str, lower, strip, ℤ, pos, negsuc, distance, Float, finite, nan, infinite, Json, null, bool,
  int, float, str, arr, obj, Items, Fields, get_field,
}
use agent_discovery_board.Listing.{Status, active, inactive, Listing, is_active}
use agent_discovery_board.Stablecoins.{has_option}
use agent_discovery_board.Pagination.{AnyCursor, activity_cursor, rank_cursor, similarity_cursor}
use agent_discovery_board.Activity.{last_activity_at, stale_sql}

-- The filters of `_filter_conditions`; a price cap is in units of 10 ^ -18 USD, rounded down, which admits
-- the same amounts.
pub record Filter : Type 0 where
  pub status : Option Status
  pub include_test : Bool
  pub listing_type : Option String
  pub task_categories : List String
  pub claimed : Option Bool
  pub payment_network : Option String
  pub max_price : Option ℕ
  pub has_template : Option Bool
  pub stale : Option Bool

abbrev same_bool : Bool → Bool → Bool
same_bool true b = b
same_bool false b = not b

abbrev same_status : Status → Status → Bool
same_status s t = same_bool (is_active s) (is_active t)

abbrev if_given {ℓ} : {A : Type ℓ} → (A → Bool) → Option A → Bool
if_given p none = true
if_given p (some a) = p a

abbrev overlaps : List String → List String → Bool
overlaps [] cs = true
overlaps (w ∷ ws) cs = any (λ c. is_in c cs) (w ∷ ws)

-- The WHERE clause, at the time `now`.
unfoldable pub matches : Filter → (stale_after now : ℕ) → Listing → Bool
matches f stale_after now r =
    same_status (or_else f.status active) r.status
    && (f.include_test || not r.is_test)
    && if_given (λ t. r.listing_type == t) f.listing_type
    && overlaps f.task_categories r.task_categories
    && if_given (same_bool r.claimed) f.claimed
    && has_option f.payment_network f.max_price r.payment_options
    && if_given (same_bool (is_some r.output_schema)) f.has_template
    && if_given (same_bool (stale_sql stale_after now r)) f.stale

-- What PostgreSQL says of a query and a row: the full-text match and `ts_rank`, whether pg_trgm is there, and
-- its word similarity. A score is a double that is not negative, known by its bit pattern, a number
-- that orders alike; `read_score` and `write_score` are that of a JSON number and back.
pub record Engine : Type 0 where
  pub is_match : String → Listing → Bool
  pub rank : String → Listing → ℕ
  pub trigram_available : Bool
  pub is_similar : String → Listing → Bool
  pub similarity : String → Listing → ℕ
  pub read_score : Json → ℕ
  pub write_score : ℕ → Json

pub data Mode : Type 0 where
  by_activity by_rank by_similarity : Mode

-- The value by which a row is sorted, and the tiebreak.
pub record Place : Type 0 where
  pub value : ℕ
  pub id : String

-- (value, id) < (value, id); ids are texts of one length over the hexadecimal digits and the dash,
-- ordered by code point.
unfoldable pub is_before : Place → Place → Bool
is_before a b = ltb a.value b.value || (eqb a.value b.value && not (le_str b.id a.id))

module _ (score : Listing → ℕ) where
  unfoldable pub place_of : Listing → Place
  place_of r = record { value = score r; id = r.id }

  -- ORDER BY ... DESC, id DESC
  unfoldable pub insert_row : Listing → List Listing → List Listing
  unfolding is_before
  insert_row r [] = r ∷ []
  insert_row r (x ∷ xs) =
      let rest = insert_row r xs in
      if is_before (place_of x) (place_of r) then r ∷ x ∷ xs else x ∷ rest

  unfoldable pub sort_rows : List Listing → List Listing
  unfolding insert_row
  sort_rows [] = []
  sort_rows (r ∷ rs) = insert_row r (sort_rows rs)

  abbrev pub is_after : Option Place → Listing → Bool
  is_after none r = true
  is_after (some c) r = is_before (place_of r) c

  -- `_paged`: one row more than the limit, to see whether more follow.
  unfoldable pub paged : Option Place → (limit offset : ℕ) → List Listing → List Listing
  unfolding sort_rows
  paged place limit offset found =
      take (limit + 1) (drop offset (keep (is_after place) (sort_rows found)))

-- What `list_listings` returns, with the line that it writes to search_log.
pub record Found : Type 0 where
  pub rows : List Listing
  pub total : ℕ
  pub has_more : Bool
  pub mode : Mode
  pub logged : Option (String × ℕ)

-- cursor.activity and cursor.value, where a cursor of another kind raises AttributeError.
abbrev pub activity_place : Option AnyCursor → Option (Option Place)
activity_place none = some none
activity_place (some (activity_cursor t id)) = some (some (record { value = t; id = id }))
activity_place (some _) = none

abbrev pub score_place : Engine → Option AnyCursor → Option (Option Place)
score_place engine none = some none
score_place engine (some (activity_cursor t id)) = none
score_place engine (some (rank_cursor v id h)) =
    some (some (record { value = engine.read_score v; id = id }))
score_place engine (some (similarity_cursor v id h)) =
    some (some (record { value = engine.read_score v; id = id }))

abbrev pub mode_of : AnyCursor → Mode
mode_of (activity_cursor _ _) = by_activity
mode_of (rank_cursor _ _ _) = by_rank
mode_of (similarity_cursor _ _ _) = by_similarity

-- FULLTEXT_FALLBACK_THRESHOLD
abbrev pub fallback_threshold : ℕ
fallback_threshold = 0

module _ (limit offset : ℕ) where
  unfoldable pub page_of :
      (Listing → ℕ) → Mode → Option String → Option Place → List Listing → Found
  unfolding paged
  page_of score mode query place found =
      let rows = paged score place limit offset found in
      record {
        rows = take limit rows;
        total = length found;
        has_more = ltb limit (length rows);
        mode = mode;
        logged = elim query [ none ↦ none | some q ↦ some (q, length found) ];
      }

  abbrev pub page_at :
      (Listing → ℕ) → Mode → Option String → Option (Option Place) → List Listing → Option Found
  page_at score mode query none found = none
  page_at score mode query (some place) found = some (page_of score mode query place found)

  -- pg_trgm is not there: no rows.
  abbrev pub no_page : Mode → String → Found
  no_page mode q = record {
    rows = [];
    total = 0;
    has_more = false;
    mode = mode;
    logged = some (q, 0);
  }

module _ (engine : Engine) (q : String) where
  -- The mode of a search: that of its cursor, or on a first page full text if that finds a row.
  unfoldable pub choose_mode : Option AnyCursor → List Listing → Mode
  choose_mode none rows =
      if ltb fallback_threshold (length (keep (engine.is_match q) rows))
      then by_rank
      else by_similarity
  choose_mode (some c) rows = mode_of c

  -- The rows of a query that meet the other filters already.
  abbrev pub search_in : (limit offset : ℕ) → Mode → Option AnyCursor → List Listing → Option Found
  search_in limit offset by_rank cursor rows =
      page_at limit offset (engine.rank q) by_rank (some q) (score_place engine cursor)
        (keep (engine.is_match q) rows)
  search_in limit offset mode cursor rows =
      if engine.trigram_available
      then page_at limit offset (engine.similarity q) mode (some q) (score_place engine cursor)
          (keep (engine.is_similar q) rows)
      else some (no_page limit offset mode q)

abbrev given : Option String → List String
given none = []
given (some s) = s ∷ []

-- The texts among the parameters of `_filter_conditions`
abbrev pub filter_texts : Filter → List String
filter_texts f = given f.listing_type ++ f.task_categories ++ given f.payment_network

abbrev pub cursor_texts : Option AnyCursor → List String
cursor_texts none = []
cursor_texts (some (activity_cursor t id)) = id ∷ []
cursor_texts (some (rank_cursor v id h)) = id ∷ []
cursor_texts (some (similarity_cursor v id h)) = id ∷ []

abbrev pub is_similarity : Option AnyCursor → Bool
is_similarity (some (similarity_cursor v id h)) = true
is_similarity _ = false

-- The largest bigint, which an OFFSET may be; on more PostgreSQL raises.
abbrev pub max_bigint : ℕ
max_bigint = 9223372036854775807

-- Whether psycopg and PostgreSQL take the values that the statements of a listing bind, where `takes` says
-- so of a text: one with a NUL raises. A later page of a similarity search without pg_trgm only logs
-- its query.
unfoldable pub is_bindable :
    (takes : String → Bool)
    → Engine
    → Filter
    → Option String
    → Option AnyCursor
    → (offset : ℕ) → Bool
is_bindable takes engine f q cursor offset =
    let text = or_else q "" in
    let skipped = not (text == "") && not engine.trigram_available && is_similarity cursor in
    (text == "" || takes text)
    && (skipped
        || (leb offset max_bigint && all takes (filter_texts f) && all takes (cursor_texts cursor)))

-- `list_listings` on values that are bindable; `none` where a cursor of the wrong kind makes it raise.
unfoldable pub list_listings :
    Engine
    → Filter
    → (stale_after now : ℕ) → Option String
    → Option AnyCursor
    → (limit offset : ℕ) → List Listing
    → Option Found
unfolding matches page_of choose_mode
list_listings engine f stale_after now q cursor limit offset rows =
    let found = keep (matches f stale_after now) rows in
    let text = or_else q "" in
    if text == ""
    then page_at limit offset last_activity_at by_activity none (activity_place cursor) found
    else search_in engine text limit offset (choose_mode engine text cursor found) cursor found

-- rows[-1]
unfoldable pub last_row : List Listing → Option Listing
last_row [] = none
last_row (r ∷ rs) = elim (last_row rs) [ none ↦ some r | some x ↦ some x ]
