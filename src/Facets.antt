-- ===== src/Facets.antt =====
-- app/core/db.py: `facet_counts`, how many listings of a search are in each bucket. In which order GROUP BY
-- gives its groups is left open by SQL; here a group stands where its last row comes.
pub mod Totals
use agent_discovery_board.Prelude.{
  ℕ, ◌+◌, String, Bool, true, false, not, ◌&&◌, Option, none, some, List, [], ◌∷◌, ◌++◌, map, ◌==◌,
  ltb, eqb, is_none, or_else, if◌then◌else◌, length, keep, is_in, lookup, put_at,
}
use agent_discovery_board.Listing.{PaymentOption, Listing}
use agent_discovery_board.Models.{task_categories}
use agent_discovery_board.Search.{Filter, Engine, matches, fallback_threshold}

abbrev pub Counts : Type 0
Counts = List (String × ℕ)

unfoldable pub count : String → Counts → Counts
unfolding lookup put_at
count k counts = put_at k (or_else (lookup k counts) 0 + 1) counts

abbrev pub count_all : List String → Counts → Counts
count_all [] counts = counts
count_all (k ∷ ks) counts = count k (count_all ks counts)

-- COUNT(*) ... GROUP BY the keys of a row
unfoldable pub count_by : (Listing → List String) → List Listing → Counts
unfolding count
count_by keys [] = []
count_by keys (r ∷ rows) = count_all (keys r) (count_by keys rows)

abbrev pub distinct : List String → List String
distinct [] = []
distinct (k ∷ ks) = let rest = distinct ks in if is_in k rest then rest else k ∷ rest

-- The networks of a row's options; each counts a row once, by COUNT(DISTINCT listings.id).
abbrev pub networks_of : Listing → List String
networks_of r = distinct (map (λ (o : PaymentOption). o.network) r.payment_options)

abbrev pub source_keys : Listing → List String
source_keys r = elim r.source [ none ↦ [] | some s ↦ s ∷ [] ]

-- (r["source"] or "none") of the groups, in a dictionary: of two groups with one key the later stays.
abbrev named : Counts → Counts → Counts
named [] counts = counts
named ((s, n) ∷ groups) counts = named groups (put_at (if s == "" then "none" else s) n counts)

abbrev pub by_source_of : List Listing → Counts
by_source_of rows =
    let unnamed = length (keep (λ (r : Listing). is_none r.source) rows) in
    let counts = named (count_by source_keys rows) [] in
    if eqb unnamed 0 then counts else put_at "none" unnamed counts

-- The fixed categories, with 0 where nothing matches, and then those outside the set.
abbrev pub by_category_of : Counts → Counts
by_category_of counted =
    map (λ c. (c, or_else (lookup c counted) 0)) task_categories
    ++ keep (λ (e : String × ℕ). not (is_in e.0 task_categories)) counted

pub record Facets : Type 0 where
  pub total : ℕ
  pub by_task_category : Counts
  pub by_listing_type : Counts
  pub by_network : Counts
  pub by_source : Counts

unfoldable pub facet_breakdowns : List Listing → Facets
unfolding count_by lookup put_at
facet_breakdowns rows = record {
  total = length rows;
  by_task_category = by_category_of (count_by (λ (r : Listing). r.task_categories) rows);
  by_listing_type = count_by (λ (r : Listing). r.listing_type ∷ []) rows;
  by_network = count_by networks_of rows;
  by_source = by_source_of rows;
}

-- The facets, with the line that goes to search_log.
unfoldable pub facet_counts :
    Engine
    → Filter
    → (stale_after now : ℕ) → Option String
    → List Listing
    → Facets × Option (String × ℕ)
unfolding matches facet_breakdowns
facet_counts engine f stale_after now q rows =
    let found = keep (matches f stale_after now) rows in
    let text = or_else q "" in
    let full_text = keep (engine.is_match text) found in
    let result =
      if ltb fallback_threshold (length full_text)
      then facet_breakdowns full_text
      else (if engine.trigram_available
          then facet_breakdowns (keep (engine.is_similar text) found)
          else facet_breakdowns []) in
    if text == "" then (facet_breakdowns found, none) else (result, some (text, result.total))
