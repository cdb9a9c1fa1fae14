-- ===== src/Imports.antt =====
-- app/core/imports.py: one record of a source, as the row that an import writes. A record is read
-- with the types of its fields; an entry of `payment_options` that has not the fields of a payment
-- option, with their types and no others, is `none`.
pub mod Unclaimed
use agent_discovery_board.Prelude.{
  ℕ, zero, suc, ◌+◌, ◌-◌, ◌*◌, ◌/◌, ◌%◌, ◌≤◌, ◌<◌, min, max, String, ◌≡◌, refl, sym, ap, ◌∙◌, ◌≢◌,
  ◌↔◌, ◌⊎◌, inl, inr, Bool, true, false, not, ◌&&◌, ◌||◌, Option, none, some, List, [], ◌∷◌, ◌++◌,
  map, arith, ◌==◌, eq_iff, eq_refl, ltb, leb, eqb, if◌then◌else◌, tests, Bool-cases, Option-cases,
  is_none, is_some, or_else, length, take, drop, keep, any, all, find, length-append,
  length-keep-le, find_sound, find-none, All, str_len, all_chars, any_char, starts_with, is_in,
  le_str, lower, strip, ℤ, pos, negsuc, distance, Float, finite, nan, infinite, Json, null, bool,
  int, float, str, arr, obj, Items, Fields, get_field,
}
use agent_discovery_board.Listing.{Listing, PricingModel, PaymentOption, active}
use agent_discovery_board.Models.{
  ModelLibrary, ListingCreate, validate_create, validate_generic_url, unclaimed_import_submitted_by,
  optional, is_between,
}
use agent_discovery_board.Models.Shapes.{has_control_chars}
use agent_discovery_board.Models.Payment.{is_payment_option}

pub record SourceRecord : Type 0 where
  pub import_source : Option String
  pub source : Option String
  pub source_url : Option String
  pub name : Option String
  pub description : Option String
  pub listing_type : Option String
  pub task_categories : Option (List String)
  pub endpoint_url : Option String
  pub payment_wallet : Option String
  pub pricing_model : Option PricingModel
  pub pricing_amount : Option String
  pub payment_options : List (Option PaymentOption)
  pub erc8004_identity : Option String
  pub verification_agent_id : Option String
  pub output_schema : Option Json
  pub verification : Option Json
  pub template_url : Option String
  pub nested_template_url : Option String

-- `_validate_source`
unfoldable pub validate_source : String → Option String
validate_source value =
    let v = strip value in if is_between 1 100 v && not (has_control_chars v) then some v else none

-- a or b, on optional texts, where "" is false
abbrev pub or_text : Option String → Option String → Option String
or_text none b = b
or_text (some a) b = if a == "" then b else some a

abbrev validate_some : Option String → Option String
validate_some none = none
validate_some (some s) = if s == "" then none else validate_source s

-- `_resolve_source`: a given source always wins.
unfoldable pub resolve_source : Option String → SourceRecord → Option String
unfolding validate_source
resolve_source (some given) r = validate_source given
resolve_source none r = validate_some (or_text r.import_source r.source)

-- `_resolve_template_url`
abbrev pub resolve_template_url : SourceRecord → Option String
resolve_template_url r = elim r.template_url [ none ↦ r.nested_template_url | some url ↦ some url ]

-- `_filter_payment_options`: the entries that the board can represent.
unfoldable pub filter_payment_options : List (Option PaymentOption) → List PaymentOption
filter_payment_options [] = []
filter_payment_options (none ∷ os) = filter_payment_options os
filter_payment_options (some o ∷ os) =
    let rest = filter_payment_options os in if is_payment_option o then o ∷ rest else rest

abbrev pay_to_of : String → List PaymentOption → Option String
pay_to_of prefix os = elim (find (λ (o : PaymentOption). starts_with o.network prefix) os) [
  | none ↦ none
  | some o ↦ some o.pay_to
]

abbrev first_of : Option String → Option String → Option String
first_of none b = b
first_of (some a) b = some a

-- `_resolve_payment_wallet`: the record's own, else that of an EVM option, else of a Solana one.
unfoldable pub resolve_payment_wallet : SourceRecord → List PaymentOption → Option String
resolve_payment_wallet r os =
    first_of r.payment_wallet (first_of (pay_to_of "eip155:" os) (pay_to_of "solana:" os))

-- The row of a validated record.
unfoldable pub import_row : String → ℕ → String → Option String → ListingCreate → Listing
import_row id now source source_url p = record {
  id = id;
  name = p.name;
  description = p.description;
  listing_type = p.listing_type;
  task_categories = p.task_categories;
  endpoint_url = p.endpoint_url;
  payment_wallet = p.payment_wallet;
  pricing_model = p.pricing_model;
  pricing_amount = p.pricing_amount;
  payment_options = p.payment_options;
  erc8004_identity = p.erc8004_identity;
  verification_agent_id = p.verification_agent_id;
  submitted_by = p.submitted_by;
  status = active;
  is_test = false;
  created_at = now;
  updated_at = now;
  last_seen_at = none;
  claimed = false;
  source = some source;
  source_url = source_url;
  imported_at = some now;
  last_synced_at = some now;
  missing_from_source_since = none;
  output_schema = p.output_schema;
  verification = p.verification;
  template_url = p.template_url;
  endpoint_key = "";
}

infixl 5 ◌>>=◌
unfoldable pub ◌>>=◌ : {A B : Type 0} → Option A → (A → Option B) → Option B
none >>= f = none
some a >>= f = f a

module _ (lib : ModelLibrary) where
  -- `_validate_source_url`
  unfoldable pub validate_source_url : Option String → Option (Option String)
  validate_source_url url = if optional (validate_generic_url lib 2048) url then some url else none

  -- `build_import_row`; `none` is an ImportRecordError.
  unfoldable pub build_import_row : String → Option String → ℕ → SourceRecord → Option Listing
  unfolding import_row
  build_import_row id source now r = do
    resolved ← resolve_source source r
    source_url ← validate_source_url r.source_url
    let payment_options = filter_payment_options r.payment_options
    payment_wallet ← resolve_payment_wallet r payment_options
    name ← r.name
    description ← r.description
    categories ← r.task_categories
    url ← r.endpoint_url
    valid ← validate_create lib (record {
      name = name;
      description = description;
      listing_type = or_else r.listing_type "verification_profile";
      task_categories = categories;
      endpoint_url = url;
      payment_wallet = payment_wallet;
      pricing_model = r.pricing_model;
      pricing_amount = r.pricing_amount;
      payment_options = payment_options;
      erc8004_identity = r.erc8004_identity;
      verification_agent_id = r.verification_agent_id;
      output_schema = r.output_schema;
      verification = r.verification;
      template_url = resolve_template_url r;
      submitted_by = unclaimed_import_submitted_by;
    })
    some (import_row id now resolved source_url valid)
