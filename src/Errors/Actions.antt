-- ===== src/Errors/Actions.antt =====
-- app/core/errors.py: what an error body tells a client to do next. The descriptions, which are prose,
-- are not modelled.
use Prim.Native.Char.{Char, code}
use Prim.Native.String
use agent_discovery_board.Prelude.{
  String, Bool, false, ◌&&◌, List, [], ◌∷◌, ◌==◌, eqb, if◌then◌else◌, is_in,
}
use agent_discovery_board.Endpoint.{strip_end}
use agent_discovery_board.Errors.{
  ErrorCode, not_found, duplicate_listing, invalid_test_name, reserved_address, listing_inactive,
  already_claimed, unclaimable_payment_wallet, not_imported, body_too_large, validation_error,
  invalid_task_category, invalid_cursor, invalid_pagination, empty_patch, rate_limited,
  missing_signature, malformed_signature, stale_signature, replayed_signature, invalid_signature,
  wrong_signer, internal_error, Extras, existing_listing_id,
}

pub record NextAction : Type 0 where
  pub method : String
  pub path : String
  pub required_fields : List String

abbrev pub action : String → String → List String → NextAction
action method path fields = record { method = method; path = path; required_fields = fields }

infixr 66 ◌⊹◌
abbrev ◌⊹◌ : String → String → String
◌⊹◌ = String.◌++◌

-- SIGNATURE_HEADER_FIELD
abbrev pub signature_header : String
signature_header = "header:X-Wallet-Auth"

abbrev updatable : String
updatable = "at least one updatable listing field"

-- `_create_required_fields`: the fields of ListingCreate without a default
abbrev pub create_required_fields : List String
create_required_fields =
    "name" ∷ "description" ∷ "listing_type" ∷ "task_categories" ∷ "endpoint_url" ∷ "payment_wallet"
    ∷ "submitted_by" ∷ []

abbrev manifest_action : NextAction
manifest_action = action "GET" "/.well-known/agent-card.json" []

-- s.removesuffix(t)
unfoldable pub remove_suffix : String → String → String
remove_suffix t String.[] = ""
remove_suffix t (String.◌∷◌ c s) =
    if String.◌∷◌ c s == t then "" else String.◌∷◌ c (remove_suffix t s)

-- s.lstrip("/")
unfoldable pub strip_start : String → String
strip_start String.[] = ""
strip_start (String.◌∷◌ c s) =
    let rest = strip_start s in if eqb (code c) b'/' then rest else String.◌∷◌ c s

-- s.split("/")
abbrev join_part : Char → List String → List String
join_part c [] = []
join_part c (part ∷ parts) = String.◌∷◌ c part ∷ parts

unfoldable pub split_path : String → List String
split_path String.[] = "" ∷ []
split_path (String.◌∷◌ c s) =
    let rest = split_path s in if eqb (code c) b'/' then "" ∷ rest else join_part c rest

abbrev pub is_signed_parts : String → List String → Bool
is_signed_parts method (root ∷ id ∷ []) =
    root == "listings" && is_in method ("PATCH" ∷ "DELETE" ∷ [])
is_signed_parts method (root ∷ id ∷ name ∷ []) =
    root == "listings"
    && is_in name ("heartbeat" ∷ "claim" ∷ "remove-imported" ∷ [])
    && method == "POST"
is_signed_parts method _ = false

-- `_is_signed_request`
unfoldable pub is_signed_request : String → String → Bool
unfolding split_path strip_start strip_end
is_signed_request method path =
    is_signed_parts method (split_path (strip_start (strip_end b'/' path)))

abbrev patch_fields : String → List String
patch_fields method = signature_header ∷ (if method == "PATCH" then updatable ∷ [] else [])

abbrev existing_id : Extras → String
existing_id (existing_listing_id id) = id
existing_id _ = "{id}"

abbrev drop_operation : String → String
drop_operation path =
    remove_suffix "/remove-imported" (remove_suffix "/claim" (remove_suffix "/heartbeat" path))

abbrev sign_again : String → String → List NextAction
sign_again method path = action method path (patch_fields method) ∷ manifest_action ∷ []

abbrev correct_fields : String → String → List NextAction
correct_fields method path =
    action method path (
      if method == "POST" && strip_end b'/' path == "/listings" then create_required_fields else [])
    ∷ manifest_action
    ∷ []

-- `next_actions_for`
unfoldable pub next_actions_for : ErrorCode → String → String → Extras → List NextAction
unfolding remove_suffix is_signed_request strip_end
next_actions_for not_found method path given =
    action "GET" "/listings" [] ∷ action "POST" "/listings" create_required_fields ∷ []
next_actions_for duplicate_listing method path given =
    let listing = "/listings/" ⊹ existing_id given in
    action "POST" (listing ⊹ "/heartbeat") (signature_header ∷ [])
    ∷ action "PATCH" listing (signature_header ∷ updatable ∷ [])
    ∷ action "GET" listing []
    ∷ []
next_actions_for invalid_test_name method path given =
    action method path (signature_header ∷ "name" ∷ []) ∷ manifest_action ∷ []
next_actions_for reserved_address method path given =
    action method path ("submitted_by" ∷ []) ∷ manifest_action ∷ []
next_actions_for listing_inactive method path given =
    action "PATCH" (remove_suffix "/heartbeat" path) (signature_header ∷ "status" ∷ []) ∷ []
next_actions_for already_claimed method path given =
    action "GET" (remove_suffix "/claim" path) [] ∷ []
next_actions_for not_imported method path given =
    action "DELETE" (remove_suffix "/remove-imported" path) (signature_header ∷ []) ∷ []
next_actions_for unclaimable_payment_wallet method path given =
    action "GET" (remove_suffix "/remove-imported" (remove_suffix "/claim" path)) [] ∷ []
next_actions_for rate_limited method path given =
    action method path (if is_signed_request method path then signature_header ∷ [] else []) ∷ []
next_actions_for missing_signature method path given = sign_again method path
next_actions_for malformed_signature method path given = sign_again method path
next_actions_for invalid_signature method path given = sign_again method path
next_actions_for stale_signature method path given = sign_again method path
next_actions_for replayed_signature method path given = sign_again method path
next_actions_for wrong_signer method path given =
    action "GET" (drop_operation path) [] ∷ manifest_action ∷ []
next_actions_for invalid_cursor method path given = action "GET" "/listings" [] ∷ []
next_actions_for body_too_large method path given = action method path [] ∷ []
next_actions_for validation_error method path given = correct_fields method path
next_actions_for invalid_task_category method path given = correct_fields method path
next_actions_for invalid_pagination method path given = correct_fields method path
next_actions_for empty_patch method path given = correct_fields method path
next_actions_for internal_error method path given = action "GET" "/health" [] ∷ []
next_actions_for _ method path given = manifest_action ∷ []
