-- ===== src/ImportStore.antt =====
-- app/core/db.py: the statements of imports and of the purge of test listings, on the tables of
-- Store.
pub mod Keeps
pub mod Claimed
pub mod Removal
pub mod Purge
pub mod Sweep
use Prim.Native.String
use agent_discovery_board.Prelude.{
  ℕ, zero, suc, ◌+◌, ◌-◌, ◌*◌, ◌/◌, ◌%◌, ◌≤◌, ◌<◌, min, max, String, ◌≡◌, refl, sym, ap, ◌∙◌, ◌≢◌,
  ◌↔◌, ◌⊎◌, inl, inr, Bool, true, false, not, ◌&&◌, ◌||◌, Option, none, some, List, [], ◌∷◌, ◌++◌,
  map, arith, ◌==◌, eq_iff, eq_refl, ltb, leb, eqb, if◌then◌else◌, tests, Bool-cases, Option-cases,
  is_none, is_some, or_else, length, take, drop, keep, any, all, find, length-append,
  length-keep-le, All, str_len, all_chars, any_char, starts_with, is_in, le_str, lower, strip, ℤ,
  pos, negsuc, distance, Float, finite, nan, infinite, Json, null, bool, int, float, str, arr, obj,
  Items, Fields, get_field,
}
use agent_discovery_board.Listing.{
  Status, active, inactive, PricingModel, free, per_call, subscription, other, PaymentOption,
  Listing, is_active,
}
use agent_discovery_board.Endpoint.{UrlLibrary, normalize_endpoint_url}
use agent_discovery_board.Store.{
  Blocked, Db, guarded_type, same_bool, same_source, is_guarded, same_offering, same_import, clash,
  has_id, others, replace, Write, wrote, no_row, violation, failed, insert, update_where,
  get_listing, Patch, empty_patch, is_null, has_null, assign, key_of, create_listing, is_duplicate,
  find_active_duplicate, apply_patch, update_listing, set_listing_status, may_beat,
  record_heartbeat, claim_listing,
}
use agent_discovery_board.Endpoint.{strip_end}

-- What `import_upsert` comes to: a new row, a refreshed one, or a UniqueViolation.
pub data Upsert : Type 0 where
  inserted updated : Listing → Db → Upsert
  refused : Upsert

infixr 66 ◌⊹◌
abbrev ◌⊹◌ : String → String → String
◌⊹◌ = String.◌++◌

-- template_base.rstrip("/") + "/listings/" + id + "/template"
unfoldable pub template_link : String → String → String
template_link base id = strip_end b'/' base ⊹ "/listings/" ⊹ id ⊹ "/template"

-- The link that a row with this id gets: the board's own where a base is given and the row has a
-- schema, none where it has no schema, and without a base the record's own.
unfoldable pub template_for : Option String → String → Listing → Option String
template_for none id row = row.template_url
template_for (some base) id row =
    if is_some row.output_schema then some (template_link base id) else none

-- The DO UPDATE clause. The content of a claimed row stays; what a sync saw is noted for every row.
unfoldable pub refresh : Option String → Listing → Listing → Listing
refresh base row old =
    let seen = record old {
      last_synced_at = row.last_synced_at;
      missing_from_source_since = none;
    } in
    if old.claimed then seen else record seen {
      name = row.name;
      description = row.description;
      listing_type = row.listing_type;
      task_categories = row.task_categories;
      endpoint_url = row.endpoint_url;
      payment_wallet = row.payment_wallet;
      pricing_model = row.pricing_model;
      pricing_amount = row.pricing_amount;
      payment_options = row.payment_options;
      erc8004_identity = row.erc8004_identity;
      verification_agent_id = row.verification_agent_id;
      source_url = row.source_url;
      output_schema = row.output_schema;
      verification = row.verification;
      template_url = template_for base old.id row;
    }

abbrev pub to_upsert : Write → Upsert
to_upsert (wrote r db) = inserted r db
to_upsert _ = refused

-- INSERT ... ON CONFLICT (source, endpoint_key) DO UPDATE, of a row whose key is computed.
unfoldable pub upsert : Option String → Listing → Db → Upsert
unfolding insert
upsert base row db = elim (find (same_import row) db.listings) [
  | none ↦ to_upsert (insert (record row { template_url = template_for base row.id row }) db)
  | some old ↦
      let new = refresh base row old in
      if any (clash new) (others old.id db.listings)
      then refused
      else updated new (record db { listings = replace old.id new db.listings })
]

-- source = ... AND endpoint_key = ... in `do_not_import`
unfoldable pub is_blocked : String → String → Db → Bool
is_blocked source key db =
    any (λ (b : Blocked). b.source == source && b.endpoint_key == key) db.do_not_import

-- INSERT INTO do_not_import ... ON CONFLICT DO UPDATE
unfoldable pub block : Blocked → List Blocked → List Blocked
block new [] = new ∷ []
block new (b ∷ bs) =
    if b.source == new.source && b.endpoint_key == new.endpoint_key
    then new ∷ bs
    else b ∷ block new bs

module _ (urls : UrlLibrary) where
  unfoldable pub import_upsert : Option String → Listing → Db → Upsert
  unfolding upsert
  import_upsert base row db =
      upsert base (record row { endpoint_key = key_of urls row.endpoint_url }) db

  -- DELETE ... AND source IS NOT NULL, and the entry that keeps a later sync from recreating it.
  unfoldable pub remove_imported_listing : String → String → ℕ → Db → Option (Listing × Db)
  unfolding block
  remove_imported_listing id reason now db =
      elim (find (λ r. has_id id r && is_some r.source) db.listings) [
        | none ↦ none
        | some r ↦ some (
          r,
          record {
            listings = others id db.listings;
            do_not_import =
                block
                  (record {
                    source = or_else r.source "";
                    endpoint_key = key_of urls r.endpoint_url;
                    reason = reason;
                    created_at = now;
                  })
                  db.do_not_import;
          },
        )
      ]

  unfoldable pub is_in_do_not_import : String → String → Db → Bool
  unfolding is_blocked
  is_in_do_not_import source url db = is_blocked source (key_of urls url) db

  unfoldable pub do_not_import_keys : String → List String → Db → List String
  unfolding is_blocked
  do_not_import_keys source endpoint_urls db =
      keep (λ k. is_blocked source k db) (map (key_of urls) endpoint_urls)

  abbrev of_source : String → Option String → Bool
  of_source source none = false
  of_source source (some s) = s == source

  -- Normalized key and `claimed`, for the listings of the source among these URLs.
  unfoldable pub existing_import_listings : String → List String → Db → List (String × Bool)
  existing_import_listings source endpoint_urls db =
      map (λ (r : Listing). (r.endpoint_key, r.claimed))
        (keep
          (λ (r : Listing).
            of_source source r.source && is_in r.endpoint_key (map (key_of urls) endpoint_urls))
          db.listings)

  -- The WHERE clause that the preview and the marking share.
  abbrev pub is_missing : String → List String → Listing → Bool
  is_missing source seen r =
      of_source source r.source
      && is_active r.status
      && is_none r.missing_from_source_since
      && not (is_in r.endpoint_key (map (key_of urls) seen))

  unfoldable pub preview_missing_from_source : String → List String → Db → List (String × String)
  preview_missing_from_source source seen db =
      map (λ (r : Listing). (r.id, r.name)) (keep (is_missing source seen) db.listings)

  abbrev pub mark : String → List String → ℕ → Listing → Listing
  mark source seen now r =
      if is_missing source seen r then record r { missing_from_source_since = some now } else r

  -- The ids that are newly marked, and the table after.
  unfoldable pub mark_missing_from_source : String → List String → ℕ → Db → List String × Db
  mark_missing_from_source source seen now db = (
    map (λ (r : Listing). r.id) (keep (is_missing source seen) db.listings),
    record db { listings = map (mark source seen now) db.listings },
  )

-- ORDER BY created_at
unfoldable pub insert_by_age : Listing → List Listing → List Listing
insert_by_age r [] = r ∷ []
insert_by_age r (x ∷ xs) =
    if leb r.created_at x.created_at then r ∷ x ∷ xs else x ∷ insert_by_age r xs

unfoldable pub sort_by_age : List Listing → List Listing
sort_by_age [] = []
sort_by_age (r ∷ rs) = insert_by_age r (sort_by_age rs)

abbrev pub is_expired_test : ℕ → Listing → Bool
is_expired_test cutoff r = r.is_test && ltb r.created_at cutoff

-- The rows that one purge takes: the oldest expired test listings, `limit` at most.
unfoldable pub purge_batch : ℕ → ℕ → Db → List Listing
unfolding sort_by_age insert_by_age
purge_batch cutoff limit db = take limit (sort_by_age (keep (is_expired_test cutoff) db.listings))

unfoldable pub purge_expired_test_listings : ℕ → ℕ → Db → List String × Db
unfolding purge_batch
purge_expired_test_listings cutoff limit db =
    let ids = map (λ (r : Listing). r.id) (purge_batch cutoff limit db) in
    (ids, record db { listings = keep (λ (r : Listing). not (is_in r.id ids)) db.listings })
