-- ===== src/Models.antt =====
-- app/core/models.py, app/core/reserved.py and app/core/constants.py: the checks of a request body
-- that come before a handler runs. A failed check is a 422, here `none` or `false`.
pub mod Shapes
pub mod Payment
pub mod Pricing
use Prim.Native.Char.{code}
use agent_discovery_board.Prelude.{
  ℕ, zero, suc, ◌+◌, ◌-◌, ◌*◌, ◌/◌, ◌%◌, ◌≤◌, ◌<◌, min, max, String, ◌≡◌, refl, sym, ap, ◌∙◌, ◌≢◌,
  ◌↔◌, ◌⊎◌, inl, inr, Bool, true, false, not, ◌&&◌, ◌||◌, Option, none, some, List, [], ◌∷◌, ◌++◌,
  map, arith, ◌==◌, eq_iff, eq_refl, ltb, leb, eqb, if◌then◌else◌, tests, Bool-cases, Option-cases,
  is_none, is_some, or_else, length, take, drop, keep, any, all, find, length-append,
  length-keep-le, find_sound, find-none, All, str_len, all_chars, any_char, starts_with, is_in,
  le_str, lower, strip, ℤ, pos, negsuc, distance, Float, finite, nan, infinite, Json, null, bool,
  int, float, str, arr, obj, Items, Fields, get_field,
}
use agent_discovery_board.Listing.{
  Status, active, inactive, PricingModel, free, per_call, subscription, other, PaymentOption,
  Listing, is_active,
}
use agent_discovery_board.Endpoint.{UrlLibrary, normalize_endpoint_url}
use agent_discovery_board.Store.{Patch, same_bool}
use agent_discovery_board.Models.Shapes.{
  has_control_chars, is_slug, is_evm_address, is_base58_pubkey,
}
use agent_discovery_board.Models.Payment.{is_payment_option}
use agent_discovery_board.Models.Pricing.{is_priced}

-- HARDHAT_ACCOUNT_0
abbrev pub hardhat_account_0 : String
hardhat_account_0 = "0xf39Fd6e51aad88F6F4ce6aB8827279cffFb92266"

abbrev pub unclaimed_import_submitted_by : String
unclaimed_import_submitted_by = "0x0000000000000000000000000000000000000000"

unfoldable pub is_reserved_address : String → Bool
is_reserved_address address =
    is_in (lower address) (map lower (hardhat_account_0 ∷ unclaimed_import_submitted_by ∷ []))

-- TASK_CATEGORIES
abbrev pub task_categories : List String
task_categories =
    "data extraction" ∷ "summarization" ∷ "content generation" ∷ "code generation" ∷ "code review"
    ∷ "research/search" ∷ "translation" ∷ "image generation" ∷ "data validation" ∷ "scheduling"
    ∷ "finance and tax" ∷ "crypto and blockchain data" ∷ "security and compliance"
    ∷ "commerce and shopping" ∷ "media generation" ∷ "other" ∷ []

-- What `urlparse` tells of a URL; `bad_port` where reading `.port` raises.
pub record ParsedUrl : Type 0 where
  pub scheme : String
  pub netloc : String
  pub hostname : Option String
  pub bad_port : Bool

-- From the standard library: `urlparse`, `none` where it raises a ValueError, and the length of
-- `json.dumps` of an object.
pub record ModelLibrary : Type 0 where
  pub urlparse : String → Option ParsedUrl
  pub dumps_length : Fields → ℕ

abbrev has_text : Option String → Bool
has_text none = false
has_text (some s) = not (s == "")

-- A length between two bounds.
abbrev pub is_between : ℕ → ℕ → String → Bool
is_between low high s = leb low (str_len s) && leb (str_len s) high

-- A bounded text without control characters: Name, Description, Erc8004Identity, ...
abbrev pub is_clean : ℕ → String → Bool
is_clean high s = is_between 1 high s && not (has_control_chars s)

abbrev has_duplicates : List String → Bool
has_duplicates [] = false
has_duplicates (s ∷ ss) = is_in s ss || has_duplicates ss

-- `_validate_task_categories`, with the bounds of the field.
unfoldable pub validate_task_categories : List String → Bool
validate_task_categories value =
    leb 1 (length value)
    && leb (length value) (length task_categories)
    && not (has_duplicates value)
    && all (λ c. is_in c task_categories) value

-- `_validate_listing_type`
unfoldable pub validate_listing_type : String → Option String
validate_listing_type value =
    let normalized = lower (strip value) in if is_slug normalized then some normalized else none

-- `_validate_payment_wallet`
unfoldable pub validate_payment_wallet : String → Bool
validate_payment_wallet value = is_evm_address value || is_base58_pubkey value

abbrev pub optional {ℓ} : {A : Type ℓ} → (A → Bool) → Option A → Bool
optional p none = true
optional p (some a) = p a

-- A PATCH field: absent or null passes.
abbrev pub unless_null {ℓ} : {A : Type ℓ} → (A → Bool) → Option (Option A) → Bool
unless_null p (some (some a)) = p a
unless_null p _ = true

pub record ListingCreate : Type 0 where
  pub name : String
  pub description : String
  pub listing_type : String
  pub task_categories : List String
  pub endpoint_url : String
  pub payment_wallet : String
  pub pricing_model : Option PricingModel
  pub pricing_amount : Option String
  pub payment_options : List PaymentOption
  pub erc8004_identity : Option String
  pub verification_agent_id : Option String
  pub output_schema : Option Json
  pub verification : Option Json
  pub template_url : Option String
  pub submitted_by : String

module _ (lib : ModelLibrary) where
  -- `_validate_https_url`
  unfoldable pub validate_https_url : String → Bool
  validate_https_url value =
      leb (str_len value) 2048 && not (has_control_chars value) && elim (lib.urlparse value) [
        | none ↦ false
        | some u ↦
            not u.bad_port && u.scheme == "https" && not (u.netloc == "") && has_text u.hostname
      ]

  unfoldable pub validate_generic_url : ℕ → String → Bool
  validate_generic_url max_length value =
      leb (str_len value) max_length && not (has_control_chars value) && elim (lib.urlparse value) [
        | none ↦ false
        | some u ↦ is_in u.scheme ("http" ∷ "https" ∷ []) && has_text u.hostname
      ]

  -- `_validate_output_schema`, `_validate_verification`: an object of at most 20,000 bytes.
  unfoldable pub is_small_object : Json → Bool
  is_small_object (obj fields) = leb (lib.dumps_length fields) 20000
  is_small_object _ = false

  -- The checks of the single fields of `ListingCreate` that do not change them.
  unfoldable pub has_valid_fields : ListingCreate → Bool
  has_valid_fields p =
      is_clean 200 p.name
      && is_clean 2000 p.description
      && validate_task_categories p.task_categories
      && validate_https_url p.endpoint_url
      && optional (is_between 1 100) p.pricing_amount
      && (leb (length p.payment_options) 20 && all is_payment_option p.payment_options)
      && optional (is_clean 500) p.erc8004_identity
      && optional (is_clean 200) p.verification_agent_id
      && optional is_small_object p.output_schema
      && optional is_small_object p.verification
      && optional (validate_generic_url 2048) p.template_url
      && is_evm_address p.submitted_by

  -- `ListingCreate(**body)` with its validators: the payload with the type normalized.
  unfoldable pub validate_create : ListingCreate → Option ListingCreate
  unfolding has_valid_fields
  validate_create p = elim (validate_listing_type p.listing_type) [
    | none ↦ none
    | some listing_type ↦
        if has_valid_fields p
          && (validate_payment_wallet p.payment_wallet
              && is_priced listing_type p.pricing_model p.pricing_amount p.payment_options)
        then some (record p { listing_type = listing_type })
        else none
  ]

  -- The type that a PATCH sets, normalized; `none` where it is no slug.
  unfoldable pub patch_type : Option (Option String) → Option (Option (Option String))
  patch_type (some (some s)) = elim (validate_listing_type s) [
    | none ↦ none
    | some t ↦ some (some (some t))
  ]
  patch_type none = some none
  patch_type (some none) = some (some none)

  -- `ListingUpdate(**body)` with its validators: null passes everywhere but in payment_options,
  -- which a `Patch` cannot hold as null.
  unfoldable pub validate_update : Patch → Option Patch
  validate_update p = elim (patch_type p.listing_type) [
    | none ↦ none
    | some listing_type ↦
        if unless_null (is_clean 200) p.name
          && unless_null (is_clean 2000) p.description
          && unless_null validate_task_categories p.task_categories
          && unless_null validate_https_url p.endpoint_url
          && unless_null validate_payment_wallet p.payment_wallet
          && unless_null (is_between 1 100) p.pricing_amount
          && optional (λ (os : List PaymentOption). leb (length os) 20 && all is_payment_option os)
              p.payment_options
          && unless_null (is_clean 500) p.erc8004_identity
          && unless_null (is_clean 200) p.verification_agent_id
          && unless_null is_small_object p.output_schema
          && unless_null is_small_object p.verification
          && unless_null (validate_generic_url 2048) p.template_url
        then some (record p { listing_type = listing_type })
        else none
  ]
