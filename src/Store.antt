-- ===== src/Store.antt =====
-- app/core/db.py: the `listings` and `do_not_import` tables. A statement runs on the whole table at
-- once; a write that a unique index refuses is a `violation` and changes nothing.
pub mod Duplicates
pub mod Once
pub mod Unique
pub mod Writes
use agent_discovery_board.Prelude.{
  ℕ, zero, suc, ◌+◌, ◌-◌, ◌*◌, ◌/◌, ◌%◌, ◌≤◌, ◌<◌, min, max, String, ◌≡◌, refl, sym, ap, ◌∙◌, ◌≢◌,
  ◌↔◌, ◌⊎◌, inl, inr, Bool, true, false, not, ◌&&◌, ◌||◌, Option, none, some, List, [], ◌∷◌, ◌++◌,
  map, arith, ◌==◌, eq_iff, eq_refl, ltb, leb, eqb, if◌then◌else◌, tests, Bool-cases, Option-cases,
  is_none, is_some, or_else, length, take, drop, keep, any, all, find, length-append,
  length-keep-le, All, str_len, all_chars, any_char, starts_with, is_in, le_str, lower, strip, ℤ,
  pos, negsuc, distance, Float, finite, nan, infinite, Json, null, bool, int, float, str, arr, obj,
  Items, Fields, get_field,
}
use agent_discovery_board.Listing.{
  Status, active, inactive, PricingModel, free, per_call, subscription, other, PaymentOption,
  Listing, is_active,
}
use agent_discovery_board.Endpoint.{UrlLibrary, normalize_endpoint_url}

pub record Blocked : Type 0 where
  pub source : String
  pub endpoint_key : String
  pub reason : String
  pub created_at : ℕ

pub record Db : Type 0 where
  pub listings : List Listing
  pub do_not_import : List Blocked

-- DUPLICATE_GUARDED_LISTING_TYPE
abbrev pub guarded_type : String
guarded_type = "offering"

abbrev pub same_bool : Bool → Bool → Bool
same_bool true b = b
same_bool false b = not b

abbrev pub same_source : Option String → Option String → Bool
same_source (some s) (some t) = s == t
same_source _ _ = false

-- Where the partial index over active offerings holds a row.
unfoldable pub is_guarded : Listing → Bool
is_guarded r = is_active r.status && r.listing_type == guarded_type

-- Two rows that no table holds: `listings_active_offering_scope_endpoint_owner_uniq`.
unfoldable pub same_offering : Listing → Listing → Bool
unfolding is_guarded
same_offering a b =
    (is_guarded a && is_guarded b)
    && same_bool a.is_test b.is_test
    && a.endpoint_key == b.endpoint_key
    && lower a.submitted_by == lower b.submitted_by

-- `listings_source_endpoint_uniq`
unfoldable pub same_import : Listing → Listing → Bool
same_import a b = same_source a.source b.source && a.endpoint_key == b.endpoint_key

-- A pair that some unique index, or the primary key, refuses.
unfoldable pub clash : Listing → Listing → Bool
clash a b = a.id == b.id || same_offering a b || same_import a b

abbrev pub has_id : String → Listing → Bool
has_id id r = r.id == id

-- The rows beside the one with this id.
abbrev pub others : String → List Listing → List Listing
others id = keep (λ r. not (has_id id r))

unfoldable pub replace : String → Listing → List Listing → List Listing
replace id new [] = []
replace id new (r ∷ rs) = (if has_id id r then new else r) ∷ replace id new rs

-- What a write statement comes to: the row that it returns, no row, a UniqueViolation, or another
-- exception (a NULL for a NOT NULL column).
pub data Write : Type 0 where
  wrote : Listing → Db → Write
  no_row : Write
  violation : Write
  failed : Write

-- INSERT INTO listings ... RETURNING
unfoldable pub insert : Listing → Db → Write
insert row db =
    if any (clash row) db.listings
    then violation
    else wrote row (record db { listings = db.listings ++ row ∷ [] })

-- UPDATE listings SET ... WHERE id = ... AND cond RETURNING
unfoldable pub update_where : String → (Listing → Bool) → (Listing → Listing) → Db → Write
update_where id cond set db = elim (find (has_id id) db.listings) [
  | none ↦ no_row
  | some r ↦
      if cond r
      then (if any (clash (set r)) (others id db.listings)
          then violation
          else wrote (set r) (record db { listings = replace id (set r) db.listings }))
      else no_row
]

unfoldable pub get_listing : String → Db → Option Listing
get_listing id db = find (has_id id) db.listings

-- The columns that a PATCH may set: `none` is a column that is not in `patch`, `some none` one that
-- is null there. Only `payment_options` is never null.
pub record Patch : Type 0 where
  pub name : Option (Option String)
  pub description : Option (Option String)
  pub listing_type : Option (Option String)
  pub task_categories : Option (Option (List String))
  pub endpoint_url : Option (Option String)
  pub payment_wallet : Option (Option String)
  pub pricing_model : Option (Option PricingModel)
  pub pricing_amount : Option (Option String)
  pub payment_options : Option (List PaymentOption)
  pub erc8004_identity : Option (Option String)
  pub verification_agent_id : Option (Option String)
  pub output_schema : Option (Option Json)
  pub verification : Option (Option Json)
  pub template_url : Option (Option String)
  pub status : Option (Option Status)

abbrev pub empty_patch : Patch
empty_patch = record {
  name = none;
  description = none;
  listing_type = none;
  task_categories = none;
  endpoint_url = none;
  payment_wallet = none;
  pricing_model = none;
  pricing_amount = none;
  payment_options = none;
  erc8004_identity = none;
  verification_agent_id = none;
  output_schema = none;
  verification = none;
  template_url = none;
  status = none;
}

abbrev pub is_null {ℓ} : {A : Type ℓ} → Option (Option A) → Bool
is_null (some none) = true
is_null _ = false

-- A NULL for a column that is declared NOT NULL.
unfoldable pub has_null : Patch → Bool
has_null p =
    is_null p.name
    || is_null p.description
    || is_null p.listing_type
    || is_null p.task_categories
    || is_null p.endpoint_url
    || is_null p.payment_wallet
    || is_null p.status

-- The value of a required column after the patch.
abbrev pub assign {ℓ} : {A : Type ℓ} → Option (Option A) → A → A
assign (some (some new)) old = new
assign _ old = old

module _ (urls : UrlLibrary) where
  abbrev pub key_of : String → String
  key_of url = normalize_endpoint_url urls url

  -- `create_listing`: the key is computed here, whatever the row says.
  unfoldable pub create_listing : Listing → Db → Write
  unfolding insert
  create_listing row db = insert (record row { endpoint_key = key_of row.endpoint_url }) db

  abbrev not_excluded : Option String → Listing → Bool
  not_excluded none r = true
  not_excluded (some x) r = not (r.id == x)

  abbrev pub is_duplicate : String → String → Option String → Bool → Listing → Bool
  is_duplicate key submitted_by exclude is_test r =
      r.endpoint_key == key
      && lower r.submitted_by == lower submitted_by
      && is_active r.status
      && r.listing_type == guarded_type
      && same_bool r.is_test is_test
      && not_excluded exclude r

  unfoldable pub find_active_duplicate :
      String → String → Option String → Bool → Db → Option Listing
  find_active_duplicate endpoint_url submitted_by exclude is_test db =
      find (is_duplicate (key_of endpoint_url) submitted_by exclude is_test) db.listings

  abbrev patched_key : Option (Option String) → Listing → String
  patched_key (some (some url)) r = key_of url
  patched_key _ r = r.endpoint_key

  -- The SET clause of `update_listing`, with `updated_at`.
  unfoldable pub apply_patch : Patch → ℕ → Listing → Listing
  apply_patch p now r = record r {
    name = assign p.name r.name;
    description = assign p.description r.description;
    listing_type = assign p.listing_type r.listing_type;
    task_categories = assign p.task_categories r.task_categories;
    endpoint_url = assign p.endpoint_url r.endpoint_url;
    payment_wallet = assign p.payment_wallet r.payment_wallet;
    pricing_model = or_else p.pricing_model r.pricing_model;
    pricing_amount = or_else p.pricing_amount r.pricing_amount;
    payment_options = or_else p.payment_options r.payment_options;
    erc8004_identity = or_else p.erc8004_identity r.erc8004_identity;
    verification_agent_id = or_else p.verification_agent_id r.verification_agent_id;
    output_schema = or_else p.output_schema r.output_schema;
    verification = or_else p.verification r.verification;
    template_url = or_else p.template_url r.template_url;
    status = assign p.status r.status;
    updated_at = now;
    endpoint_key = patched_key p.endpoint_url r;
  }

  unfoldable pub update_listing : String → Patch → ℕ → Db → Write
  unfolding update_where
  update_listing id p now db =
      if is_null p.endpoint_url || (has_null p && is_some (find (has_id id) db.listings))
      then failed
      else update_where id (λ _. true) (apply_patch p now) db

  unfoldable pub set_listing_status : String → Status → ℕ → Db → Write
  unfolding update_listing
  set_listing_status id status now db =
      update_listing id (record empty_patch { status = some (some status) }) now db

-- last_seen_at IS NULL OR last_seen_at <= cutoff, where the cutoff is `now` less the interval
abbrev pub may_beat : ℕ → ℕ → Option ℕ → Bool
may_beat now interval none = true
may_beat now interval (some seen) = leb (seen + interval) now

unfoldable pub record_heartbeat : String → ℕ → ℕ → Db → Write
unfolding update_where
record_heartbeat id now interval db =
    update_where id (λ r. is_active r.status && may_beat now interval r.last_seen_at)
      (λ r. record r { last_seen_at = some now }) db

unfoldable pub claim_listing : String → String → ℕ → Db → Write
unfolding update_where
claim_listing id new_submitted_by now db =
    update_where id (λ r. not r.claimed)
      (λ r. record r { submitted_by = new_submitted_by; claimed = true; updated_at = now }) db
