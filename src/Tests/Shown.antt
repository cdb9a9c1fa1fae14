-- ===== src/Tests/Shown.antt =====
-- Searches, facets and responses at concrete requests.
use agent_discovery_board.Prelude.{
  Option, ◌≤◌, ◌≡◌, ◌↔◌, ◌⊎◌, refl, true, false, none, some, [], ◌∷◌, All, length, is_some, pos,
  int, arr, obj, nil, cons, Json, null, str,
}
use agent_discovery_board.Prelude.{field, end, get_field, is_true}
use agent_discovery_board.Tests.Data.{offering, imported, process, request}
use agent_discovery_board.Tests.Browse.{everything, view, searching}
use agent_discovery_board.Errors.{ok, crash}
use agent_discovery_board.Activity.{last_activity_at}
use agent_discovery_board.Maintenance.{maybe_purge}
use agent_discovery_board.Stablecoins.{has_option}
use agent_discovery_board.Board.Monad.{◌>>=◌}
use agent_discovery_board.Listing.{Listing}
use agent_discovery_board.Search.{place_of, matches, is_bindable, list_listings, Found, by_activity}
use agent_discovery_board.Pagination.{AnyCursor, encode_activity_cursor, resolve_cursor}
use agent_discovery_board.Facets.{facet_counts}
use agent_discovery_board.Facets.Totals.{Agrees, counted, total_of, total-Agrees, narrowed_total}
use agent_discovery_board.Board.Responses.{View, to_response, to_compact_response}
use agent_discovery_board.Board.Facts.{next_actions, verify_action, texts_of}
use agent_discovery_board.Board.FactTypes.{is_typed}
use agent_discovery_board.Board.Typed.{badge_fits, shown_iff_typed}
use agent_discovery_board.Board.Search.{
  Query, Paging, SearchLibrary, filter_of, check_texts, check_paging, check_filters, read_page,
  compact_results, Page, search_listings,
}
use agent_discovery_board.Board.Search.Safe.{page_safe}
use agent_discovery_board.Board.Search.Crash.{search_listings_crash}
use agent_discovery_board.Board.Search.Bounds.{IsBounded, search_listings-IsBounded}

total-Agrees_example :
    Agrees
      (list_listings searching.engine everything 5000 900
        (some "translate")
        none
        1
        0
        (offering ∷ imported ∷ []))
      (facet_counts searching.engine everything 5000 900
        (some "translate")
        (offering ∷ imported ∷ [])).0
      (facet_counts searching.engine everything 5000 900
        (some "translate")
        (offering ∷ imported ∷ [])).1
total-Agrees_example =
    total-Agrees searching.engine everything 5000 900 (some "translate") 1 0
      (offering ∷ imported ∷ [])

narrowed_total_example :
    (counted "offering"
        (facet_counts searching.engine everything 5000 900 none
          (offering ∷ imported ∷ [])).0.by_listing_type
      ≡ total_of (
          list_listings searching.engine
            (record everything { listing_type = some "offering" })
            5000
            900
            none
            none
            1
            0
            (offering ∷ imported ∷ [])))
    × (counted "offering"
          (facet_counts searching.engine everything 5000 900 none
            (offering ∷ imported ∷ [])).0.by_network
        ≡ total_of (
            list_listings searching.engine
              (record everything { payment_network = some "offering" })
              5000
              900
              none
              none
              1
              0
              (offering ∷ imported ∷ [])))
narrowed_total_example =
    narrowed_total searching.engine everything 5000 900 "offering" 1 0 (offering ∷ imported ∷ [])
      refl refl refl

-- The facts name a network by its number.
abbrev numbered : View
numbered = record view {
  snapshot = record view.snapshot {
    payment = some (obj (field "networks" (arr (cons (int (pos 8453)) nil)) end));
  };
}

abbrev templated : Listing
templated = record offering { output_schema = some (obj end) }

shown_iff_typed_example : (is_some (to_response numbered 900 templated) ≡ true) ↔ (
    (badge_fits numbered templated ≡ true)
    × ((true ≡ false) ⊎ (is_typed numbered.facts numbered.snapshot ≡ true)))
shown_iff_typed_example = shown_iff_typed numbered 900 templated

-- Of the method, null is shown as it is, and the default stands for a missing one.
abbrev with_method : Json → View
with_method m = record view {
  snapshot = record view.snapshot {
    payment = some (
        obj (
          field "endpoint" (str "https://v.example/verify/schema") (
            field "method" m (
              field "price" (str "0.01") (
                field "currency" null (
                  field "networks" (arr (cons (str "eip155:8453") nil))
                    (field "protocol" (str "x402 v2") end)))))));
  };
}

null_method_shown : is_some (to_response (with_method null) 900 templated) ≡ true
unfolding to_response next_actions verify_action texts_of get_field is_true
null_method_shown = refl

abbrev paging : Paging
paging = record { limit = pos 1; offset = pos 0; cursor = none; compact = true }

abbrev browse : Query
browse = record {
  listing_type = none;
  task_category = [];
  q = none;
  status = none;
  include_test = true;
  claimed = none;
  payment_network = none;
  max_price = none;
  has_template = none;
  stale = none;
}

abbrev first_page : Page
first_page = record {
  listings = compact_results (to_compact_response imported ∷ []);
  total = 2;
  limit = 1;
  offset = 0;
  next_cursor = some "ai";
}

search_listings-IsBounded_example : IsBounded paging first_page
unfolding search_listings ◌>>=◌ maybe_purge has_option place_of last_activity_at
    encode_activity_cursor
search_listings-IsBounded_example =
    search_listings-IsBounded searching (request none) browse paging process process first_page refl

-- The page after listing "i".
abbrev second_page : Found
second_page = record {
  rows = offering ∷ [];
  total = 2;
  has_more = false;
  mode = by_activity;
  logged = none;
}

page_safe_example :
    (length (offering ∷ []) ≤ 1) × All (λ r. matches everything 5000 900 r ≡ true) (offering ∷ [])
unfolding read_page has_option place_of last_activity_at
page_safe_example =
    page_safe searching everything 900 none 1 0 (offering ∷ imported ∷ []) (some "ai") second_page
      none refl

-- A query whose text psycopg does not take, as one with a NUL.
abbrev untaken : SearchLibrary
untaken = record searching { takes = λ s. false }

abbrev asked : Query
asked = record browse { q = some "translate" }

untaken_crash : (search_listings untaken (request none) asked paging process).0 ≡ crash
unfolding search_listings ◌>>=◌ maybe_purge read_page is_bindable resolve_cursor check_texts
    check_paging check_filters
untaken_crash = refl

search_listings_crash_example :
    (resolve_cursor searching.cursors none (some "translate") ≡ crash)
    ⊎ (((c : Option AnyCursor) × (resolve_cursor searching.cursors none (some "translate") ≡ ok c)
          × (is_bindable (λ s. false) searching.engine (filter_of asked) (some "translate") c 0
              ≡ false))
        ⊎ ((true ≡ false)
            × (row : Listing) × (matches (filter_of asked) 5000 1000000000 row ≡ true)
            × ((badge_fits view row ≡ false)
                ⊎ ((is_some row.output_schema ≡ true)
                    × (is_typed view.facts view.snapshot ≡ false)))))
search_listings_crash_example =
    search_listings_crash untaken (request none) asked paging process untaken_crash
