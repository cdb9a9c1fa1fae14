-- ===== src/Facets/Totals.antt =====
-- app/core/db.py: the counts of the facets and the totals of the pages.
use agent_discovery_board.Prelude.{
  ℕ, ◌+◌, String, ◌≡◌, refl, ◌∙◌, inl, inr, Bool, true, false, ◌&&◌, Option, none, some, List, [],
  ◌∷◌, arith, ltb, ◌==◌, eq_iff, if◌then◌else◌, Bool-cases, or_else, length, keep, any, is_in,
  lookup, lookup-put_at, map,
}
use agent_discovery_board.Listing.{PaymentOption, Listing}
use agent_discovery_board.Stablecoins.{has_option}
use agent_discovery_board.Search.{
  fallback_threshold, Filter, Engine, matches, Found, page_of, choose_mode, list_listings,
}
use agent_discovery_board.Facets.{
  Counts, count, count_all, count_by, distinct, networks_of, Facets, facet_breakdowns, facet_counts,
}

-- What `list_listings` returns has the total and the log line of the facets.
abbrev pub Agrees : Option Found → Facets → Option (String × ℕ) → Type 0
Agrees page facets logged =
    (found : Found) × (page ≡ some found) × (found.total ≡ facets.total) × (found.logged ≡ logged)

-- A first page of the listings and the facets of the same search have the same total, and the same
-- line goes to the search log.
pub total-Agrees :
    (engine : Engine) (f : Filter) (stale_after now : ℕ) (q : Option String) (limit offset : ℕ)
    (rows : List Listing)
    → let (facets, logged) = facet_counts engine f stale_after now q rows in
      Agrees (list_listings engine f stale_after now q none limit offset rows) facets logged
unfolding list_listings facet_counts facet_breakdowns page_of choose_mode
total-Agrees engine f stale_after now q limit offset rows =
    let found = keep (matches f stale_after now) rows in
    let text = or_else q "" in
    elim (Bool-cases (text == "")) [
      | inl e ↦ rw e (_, refl, refl, refl)
      | inr e ↦
          elim (Bool-cases (ltb fallback_threshold (length (keep (engine.is_match text) found)))) [
            | inl h ↦ rw (e, h) (_, refl, refl, refl)
            | inr h ↦ elim (Bool-cases engine.trigram_available) [
              | inl t ↦ rw (e, h, t) (_, refl, refl, refl)
              | inr t ↦ rw (e, h, t) (_, refl, refl, refl)
            ]
          ]
    ]

-- How often a bucket counts a row.
abbrev occurs : String → List String → ℕ
occurs k [] = 0
occurs k (j ∷ ks) = (if k == j then 1 else 0) + occurs k ks

abbrev pub counted : String → Counts → ℕ
counted k counts = or_else (lookup k counts) 0

counted-count :
    (k j : String) (counts : Counts)
    → counted k (count j counts) ≡ (if k == j then 1 else 0) + counted k counts
unfolding count
counted-count k j counts =
    ground
      (arith, lookup-put_at j k (or_else (lookup j counts) 0 + 1) counts, eq_iff k j, eq_iff j k)

counted-count_all :
    (k : String) (ks : List String) (counts : Counts)
    → counted k (count_all ks counts) ≡ occurs k ks + counted k counts
counted-count_all k [] counts = omega arith
counted-count_all k (j ∷ ks) counts =
    omega (arith, counted-count k j (count_all ks counts), counted-count_all k ks counts)

-- Where no row has a key twice, a bucket has as many rows as have its key.
counted-count_by :
    (keys : Listing → List String) (k : String) (rows : List Listing)
    → ((r : Listing) → occurs k (keys r) ≡ (if is_in k (keys r) then 1 else 0))
    → counted k (count_by keys rows) ≡ length (keep (λ r. is_in k (keys r)) rows)
unfolding count_by lookup
counted-count_by keys k [] once = refl
counted-count_by keys k (r ∷ rows) once = ground (
  arith,
  counted-count_all k (keys r) (count_by keys rows),
  once r,
  counted-count_by keys k rows once,
)

occurs-not_in : (k : String) (ks : List String) → is_in k ks ≡ false → occurs k ks ≡ 0
occurs-not_in k [] e = refl
occurs-not_in k (j ∷ ks) e = ground (arith, occurs-not_in k ks)

is_in-distinct : (k : String) (ks : List String) → is_in k (distinct ks) ≡ is_in k ks
is_in-distinct k [] = refl
is_in-distinct k (j ∷ ks) = ground (arith, is_in-distinct k ks, is_in-distinct j ks, eq_iff k j)

occurs-distinct :
    (k : String) (ks : List String)
    → occurs k (distinct ks) ≡ (if is_in k (distinct ks) then 1 else 0)
occurs-distinct k [] = refl
occurs-distinct k (j ∷ ks) =
    ground (arith, occurs-distinct k ks, occurs-not_in k (distinct ks), eq_iff k j)

length-keep-keep :
    (p m both : Listing → Bool) (rows : List Listing)
    → ((r : Listing) → both r ≡ (m r && p r))
    → length (keep p (keep m rows)) ≡ length (keep both rows)
length-keep-keep p m both [] h = refl
length-keep-keep p m both (r ∷ rows) h = ground (arith, h r, length-keep-keep p m both rows h)

any-networks :
    (k : String) (os : List PaymentOption)
    → is_in k (map (λ (o : PaymentOption). o.network) os)
      ≡ any (λ (o : PaymentOption). o.network == k && true) os
any-networks k [] = refl
any-networks k (o ∷ os) = ground (arith, any-networks k os, eq_iff k o.network, eq_iff o.network k)

abbrev pub total_of : Option Found → ℕ
total_of none = 0
total_of (some found) = found.total

module _ (f : Filter) (stale_after now : ℕ) (k : String) (r : Listing) where
  type_narrows :
      f.listing_type ≡ none
      → matches (record f { listing_type = some k }) stale_after now r
        ≡ (matches f stale_after now r && is_in k (r.listing_type ∷ []))
  unfolding matches
  type_narrows any_type = ground (arith, any_type, eq_iff k r.listing_type, eq_iff r.listing_type k)

  network_narrows :
      f.payment_network ≡ none
      → f.max_price ≡ none
      → matches (record f { payment_network = some k }) stale_after now r
        ≡ (matches f stale_after now r && is_in k (networks_of r))
  unfolding matches has_option
  network_narrows any_network any_price = ground (
    arith,
    any_network,
    any_price,
    is_in-distinct k (map (λ (o : PaymentOption). o.network) r.payment_options),
    any-networks k r.payment_options,
  )

-- A bucket of the facets holds as many rows as the listings that are narrowed to it: for each listing
-- type, where the search names none, and for each network, where it names none and has no price cap.
pub narrowed_total :
    (engine : Engine) (f : Filter) (stale_after now : ℕ) (k : String) (limit offset : ℕ)
    (rows : List Listing)
    → f.listing_type ≡ none
    → f.payment_network ≡ none
    → f.max_price ≡ none
    → let (facets, logged) = facet_counts engine f stale_after now none rows in
      let narrowed = λ (g : Filter).
        total_of (list_listings engine g stale_after now none none limit offset rows) in
      (counted k facets.by_listing_type ≡ narrowed (record f { listing_type = some k }))
      × (counted k facets.by_network ≡ narrowed (record f { payment_network = some k }))
unfolding list_listings facet_counts facet_breakdowns page_of
narrowed_total engine f stale_after now k limit offset rows type network price =
    let found = keep (matches f stale_after now) rows in
    (
      counted-count_by (λ (r : Listing). r.listing_type ∷ []) k found (λ r. ground arith)
          ∙ length-keep-keep _ _ _ rows (λ r. type_narrows f stale_after now k r type),
      counted-count_by networks_of k found
            (λ r. occurs-distinct k (map (λ (o : PaymentOption). o.network) r.payment_options))
          ∙ length-keep-keep _ _ _ rows (λ r. network_narrows f stale_after now k r network price),
    )
