-- ===== src/AdminScript/Fields.antt =====
-- scripts/admin_update_listing.py: the fields of a row by their names, and the row with some of them changed.
use agent_discovery_board.Prelude.{
  String, Option, none, some, List, [], ◌∷◌, if◌then◌else◌, or_else, is_in, map, Json, null, str,
  arr, obj, Items, nil, cons, field, end, lookup,
}
use agent_discovery_board.Listing.{
  Status, active, inactive, PricingModel, free, per_call, subscription, other, PaymentOption,
  Listing,
}
use agent_discovery_board.Models.{ListingCreate}
use agent_discovery_board.AdminScript.{Values, editable_fields}

abbrev text : Option String → Json
text none = null
text (some s) = str s

abbrev or_null : Option Json → Json
or_null none = null
or_null (some v) = v

abbrev texts : List String → Items
texts [] = nil
texts (s ∷ ss) = cons (str s) (texts ss)

abbrev pricing_name : PricingModel → String
pricing_name free = "free"
pricing_name per_call = "per_call"
pricing_name subscription = "subscription"
pricing_name other = "other"

abbrev pricing : Option PricingModel → Json
pricing none = null
pricing (some m) = str (pricing_name m)

abbrev option_fields : PaymentOption → Json
option_fields o = obj (
    field "network" (str o.network) (
      field "asset" (str o.asset) (
        field "pay_to" (str o.pay_to)
          (field "amount" (text o.amount) (field "unit" (text o.unit) end)))))

abbrev options : List PaymentOption → Items
options [] = nil
options (o ∷ os) = cons (option_fields o) (options os)

abbrev status_name : Status → String
status_name active = "active"
status_name inactive = "inactive"

-- before[field]
unfoldable pub value_of : String → Listing → Json
value_of f r = or_null (
    lookup f (
      ("name", str r.name)
      ∷ ("description", str r.description)
      ∷ ("listing_type", str r.listing_type)
      ∷ ("task_categories", arr (texts r.task_categories))
      ∷ ("endpoint_url", str r.endpoint_url)
      ∷ ("payment_wallet", str r.payment_wallet)
      ∷ ("pricing_model", pricing r.pricing_model)
      ∷ ("pricing_amount", text r.pricing_amount)
      ∷ ("payment_options", arr (options r.payment_options))
      ∷ ("erc8004_identity", text r.erc8004_identity)
      ∷ ("verification_agent_id", text r.verification_agent_id)
      ∷ ("output_schema", or_null r.output_schema)
      ∷ ("verification", or_null r.verification)
      ∷ ("template_url", text r.template_url)
      ∷ ("submitted_by", str r.submitted_by)
      ∷ ("status", str (status_name r.status))
      ∷ []))

-- {**before, **changes}
unfoldable pub candidate_of : Listing → Values → Values
unfolding value_of lookup
candidate_of before changes =
    map (λ f. (f, or_else (lookup f changes) (value_of f before))) editable_fields

-- The row that the validated fields and the candidate's status make of the old one.
unfoldable pub final_of : Listing → ListingCreate → Status → Listing
final_of before p status = record before {
  name = p.name;
  description = p.description;
  listing_type = p.listing_type;
  task_categories = p.task_categories;
  endpoint_url = p.endpoint_url;
  payment_wallet = p.payment_wallet;
  pricing_model = p.pricing_model;
  pricing_amount = p.pricing_amount;
  payment_options = p.payment_options;
  erc8004_identity = p.erc8004_identity;
  verification_agent_id = p.verification_agent_id;
  output_schema = p.output_schema;
  verification = p.verification;
  template_url = p.template_url;
  submitted_by = p.submitted_by;
  status = status;
}

abbrev chosen {ℓ} : {A : Type ℓ} → List String → String → A → A → A
chosen fields f new old = if is_in f fields then new else old

-- SET f = final[f] for the fields of the diff, on the row as it is now.
unfoldable pub assign_fields : List String → Listing → Listing → Listing
assign_fields fields final r = record r {
  name = chosen fields "name" final.name r.name;
  description = chosen fields "description" final.description r.description;
  listing_type = chosen fields "listing_type" final.listing_type r.listing_type;
  task_categories = chosen fields "task_categories" final.task_categories r.task_categories;
  endpoint_url = chosen fields "endpoint_url" final.endpoint_url r.endpoint_url;
  payment_wallet = chosen fields "payment_wallet" final.payment_wallet r.payment_wallet;
  pricing_model = chosen fields "pricing_model" final.pricing_model r.pricing_model;
  pricing_amount = chosen fields "pricing_amount" final.pricing_amount r.pricing_amount;
  payment_options = chosen fields "payment_options" final.payment_options r.payment_options;
  erc8004_identity = chosen fields "erc8004_identity" final.erc8004_identity r.erc8004_identity;
  verification_agent_id =
      chosen fields "verification_agent_id" final.verification_agent_id r.verification_agent_id;
  output_schema = chosen fields "output_schema" final.output_schema r.output_schema;
  verification = chosen fields "verification" final.verification r.verification;
  template_url = chosen fields "template_url" final.template_url r.template_url;
  submitted_by = chosen fields "submitted_by" final.submitted_by r.submitted_by;
  status = chosen fields "status" final.status r.status;
}
