-- ===== src/Board/Facts.antt =====
-- app/api/routes/listings.py: how a client may use a listing, `_next_actions`. The descriptions
-- of the next actions, which are prose, are not modelled.
use Prim.Native.Char.{code}
use Prim.Native.String
use agent_discovery_board.Prelude.{
  ◌>>=◌, String, Bool, true, false, ◌&&◌, Option, none, some, List, [], ◌∷◌, map, is_some, eqb,
  if◌then◌else◌, Json, null, bool, str, arr, nil, cons, Fields, field, end, get_field, JsonLibrary,
  get_or, is_true, as_object,
}
use agent_discovery_board.Listing.{PaymentOption, Listing}
use agent_discovery_board.Models.Pricing.{price_summary}
use agent_discovery_board.Verifier.{Status, Snapshot}

infixr 66 ◌⊹◌
abbrev ◌⊹◌ : String → String → String
◌⊹◌ = String.◌++◌

unfoldable pub networks : Listing → List String
networks row = map (λ (o : PaymentOption). o.network) row.payment_options

-- VerifierInfoStatus, without the sources, which are constants
pub record InfoStatus : Type 0 where
  pub status : Status
  pub fetched_at : Option String

-- The networks of a verify_output action are a JSON value, as the verifier's document has it.
pub record ListingNextAction : Type 0 where
  pub action : String
  pub url : String
  pub method : Option String
  pub price : Option String
  pub networks : List String
  pub body : Option Fields
  pub protocol : Option String
  pub free_path : Option Fields
  pub info : Option InfoStatus

unfoldable pub call_action : Listing → ListingNextAction
unfolding networks price_summary
call_action row = record {
  action = "call_service";
  url = row.endpoint_url;
  method = if is_some row.pricing_model then some "POST" else none;
  price = price_summary row;
  networks = networks row;
  body = none;
  protocol = none;
  free_path = none;
  info = none;
}

-- What pydantic says of the fields of a FreePath and of a Badge.
pub record FactLibrary : Type 0 where
  pub json : JsonLibrary
  pub is_free_path : Fields → Bool
  pub is_badge : Json → Bool
  pub service_url : String

-- A field of type `str`; `none` is a ValidationError.
abbrev pub text_of : Json → Option String
text_of (str s) = some s
text_of _ = none

-- A field of type `str | None`; the outer `none` is a ValidationError.
abbrev pub nullable_text_of : Json → Option (Option String)
nullable_text_of null = some none
nullable_text_of (str s) = some (some s)
nullable_text_of _ = none

-- A list of texts; `', '.join` raises where pydantic would.
unfoldable pub texts_of : Json → Option (List String)
texts_of (arr nil) = some []
texts_of (arr (cons (str s) items)) = elim (texts_of (arr items)) [
  | none ↦ none
  | some texts ↦ some (s ∷ texts)
]
texts_of _ = none

-- s.replace("  ", " "); `pending` after a space that may be the first of two.
unfoldable pub single_spaces : (pending : Bool) → String → String
single_spaces pending String.[] = ""
single_spaces pending (String.◌∷◌ c s) =
    let is_space = eqb (code c) b' ' in
    let alone = String.◌∷◌ c (single_spaces is_space s) in
    let after_pair = single_spaces false s in if pending && is_space then after_pair else alone

module _ (lib : FactLibrary) where
  -- if verification.get(key): body[key] = value
  abbrev add_if : String → (Json → Json) → Fields → Fields → Fields
  add_if key value verification rest =
      let v = get_or key null verification in
      if is_true lib.json v then field key (value v) rest else rest

  -- row.get("verification") or {}
  abbrev verification_of : Listing → Fields
  verification_of row = elim row.verification [
    | none ↦ end
    | some v ↦ elim (as_object v) [ none ↦ end | some fs ↦ fs ]
  ]

  unfoldable pub verify_body : Json → Listing → Fields
  unfolding is_true get_field
  verify_body schema row =
      let v = verification_of row in
      field "task_id" (str "<fill in with your own identifier for this check>") (
        field "expected_schema" schema (
          field "submitted_output" (str "<fill in with this service's actual output>") (
            add_if "rules" (λ x. x) v
              (add_if "bounds" (λ x. x) v (add_if "enforce_rules" (λ x. bool true) v end)))))

  -- f"{price} {currency or ''} per check"
  unfoldable pub check_price : Fields → String
  unfolding single_spaces is_true get_field
  check_price payment =
      let currency = get_or "currency" null payment in
      single_spaces false (
        lib.json.show (get_or "price" null payment)
        ⊹ " "
        ⊹ (if is_true lib.json currency then lib.json.show currency else "")
        ⊹ " per check")

  -- (payment or {}).get("endpoint") or the default
  abbrev pub endpoint_of : Option Fields → Json
  endpoint_of none = str (lib.service_url ⊹ "/verify/schema")
  endpoint_of (some payment) =
      let endpoint = get_or "endpoint" null payment in
      if is_true lib.json endpoint then endpoint else str (lib.service_url ⊹ "/verify/schema")

  -- FreePath(**free) if free else None, after the description has read three keys of it; the outer
  -- `none` is an exception.
  abbrev pub is_free : Fields → Bool
  is_free free = is_some (get_field "calls_per_client_per_day" free) && lib.is_free_path free

  abbrev pub free_object : Option Fields → Option (Option Fields)
  free_object none = none
  free_object (some free) = if is_free free then some (some free) else none

  abbrev pub free_path_of : Option Json → Option (Option Fields)
  free_path_of none = some none
  free_path_of (some free) =
      if is_true lib.json free then free_object (as_object free) else some none

  -- What counts as a payment: nothing that is false, and of a true value that is no dict the first
  -- `get` raises.
  abbrev pub payment_object : Option Fields → Option (Option Fields)
  payment_object none = none
  payment_object (some payment) = some (some payment)

  abbrev pub payment_of : Option Json → Option (Option Fields)
  payment_of none = some none
  payment_of (some payment) =
      if is_true lib.json payment then payment_object (as_object payment) else some none

  abbrev pub method_of : Option Fields → Json
  method_of none = str "POST"
  method_of (some payment) = get_or "method" (str "POST") payment

  abbrev pub networks_of : Option Fields → Option (List String)
  networks_of none = some []
  networks_of (some payment) = texts_of (get_or "networks" null payment)

  -- payment["protocol"]; a key that is missing is a KeyError.
  abbrev pub field_text : Option Json → Option (Option String)
  field_text none = none
  field_text (some j) = nullable_text_of j

  abbrev pub protocol_of : Option Fields → Option (Option String)
  protocol_of none = some none
  protocol_of (some payment) = field_text (get_field "protocol" payment)

  -- payment["price"] and payment["currency"]
  abbrev pub has_price : Fields → Bool
  has_price payment = is_some (get_field "price" payment) && is_some (get_field "currency" payment)

  abbrev pub price_of : Option Fields → Option (Option String)
  price_of none = some none
  price_of (some payment) = if has_price payment then some (some (check_price payment)) else none

  -- The verify_output action; `none` where a fact is missing or has not the type of its field.
  unfoldable pub verify_action : Snapshot → Json → Listing → Option ListingNextAction
  unfolding verify_body check_price texts_of is_true get_field
  verify_action info schema row = do
    payment ← payment_of info.payment
    url ← text_of (endpoint_of payment)
    method ← nullable_text_of (method_of payment)
    price ← price_of payment
    paid_on ← networks_of payment
    protocol ← protocol_of payment
    free ← free_path_of info.free_path
    some (record {
      action = "verify_output";
      url = url;
      method = method;
      price = price;
      networks = paid_on;
      body = some (verify_body schema row);
      protocol = protocol;
      free_path = free;
      info = some (record { status = info.status; fetched_at = info.fetched_at });
    })

  abbrev pub with_verify : Listing → Option ListingNextAction → Option (List ListingNextAction)
  with_verify row none = none
  with_verify row (some verify) = some (call_action row ∷ verify ∷ [])

  abbrev pub actions_for : Snapshot → Listing → Option Json → Option (List ListingNextAction)
  actions_for info row none = some (call_action row ∷ [])
  actions_for info row (some schema) = with_verify row (verify_action info schema row)

  -- `_next_actions`
  unfoldable pub next_actions : Snapshot → Listing → Option (List ListingNextAction)
  unfolding call_action verify_action
  next_actions info row = actions_for info row row.output_schema
