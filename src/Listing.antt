-- ===== src/Listing.antt =====
-- The row of the `listings` table (app/core/db.py, `_COLUMNS` and `endpoint_key`), with the types
-- that app/core/models.py gives its fields. A time is a whole number of microseconds.
use agent_discovery_board.Prelude.{ℕ, String, Bool, true, false, Option, List, Json}

pub data Status : Type 0 where
  active inactive : Status

pub data PricingModel : Type 0 where
  free per_call subscription other : PricingModel

pub record PaymentOption : Type 0 where
  pub network : String
  pub asset : String
  pub pay_to : String
  pub amount : Option String
  pub unit : Option String

pub record Listing : Type 0 where
  pub id : String
  pub name : String
  pub description : String
  pub listing_type : String
  pub task_categories : List String
  pub endpoint_url : String
  pub payment_wallet : String
  pub pricing_model : Option PricingModel
  pub pricing_amount : Option String
  pub payment_options : List PaymentOption
  pub erc8004_identity : Option String
  pub verification_agent_id : Option String
  pub submitted_by : String
  pub status : Status
  pub is_test : Bool
  pub created_at : ℕ
  pub updated_at : ℕ
  pub last_seen_at : Option ℕ
  pub claimed : Bool
  pub source : Option String
  pub source_url : Option String
  pub imported_at : Option ℕ
  pub last_synced_at : Option ℕ
  pub missing_from_source_since : Option ℕ
  pub output_schema : Option Json
  pub verification : Option Json
  pub template_url : Option String
  pub endpoint_key : String

abbrev pub is_active : Status → Bool
is_active active = true
is_active inactive = false
