-- ===== src/Errors/Response.antt =====
-- app/core/errors.py: the body of an error response, from any exception.
use Prim.Native.String
use agent_discovery_board.Prelude.{
  ℕ, String, Bool, true, false, not, ◌&&◌, Option, none, some, List, [], ◌∷◌, ◌++◌, ◌==◌, eqb, any,
  if◌then◌else◌, lower, or_else, Json, str, arr, obj, Items, nil, cons, Fields, get_field, get_or,
  JsonLibrary, iterate, lookup,
}
use agent_discovery_board.Errors.{
  ErrorCode, validation_error, internal_error, Extras, no_extras, retry_after,
  default_code_for_status,
}
use agent_discovery_board.Errors.Actions.{NextAction, next_actions_for}

infixr 66 ◌⊹◌
abbrev ◌⊹◌ : String → String → String
◌⊹◌ = String.◌++◌

-- ".".join(str(p) for p in loc)
abbrev join_loc : JsonLibrary → Items → String
join_loc lib nil = ""
join_loc lib (cons p nil) = lib.show p
join_loc lib (cons p (cons q ps)) = lib.show p ⊹ "." ⊹ join_loc lib (cons q ps)

abbrev loc_of : Fields → Items
loc_of e = or_else (iterate (get_or "loc" (arr nil) e)) nil

abbrev first_error : JsonLibrary → Fields → String
first_error lib e =
    let loc = join_loc lib (loc_of e) in
    let msg = lib.show (get_or "msg" (str "invalid value") e) in
    if loc == "" then msg else loc ⊹ ": " ⊹ msg

-- `_message_for`, where the `loc` of an error is a list, as it is in all that FastAPI makes.
unfoldable pub message_for : JsonLibrary → Json → String
unfolding get_field iterate
message_for lib (str s) = s
message_for lib (arr (cons (obj e) errors)) = first_error lib e
message_for lib detail = lib.show detail

-- What an ApiError adds to a plain HTTPException.
pub record Details : Type 0 where
  pub error_code : ErrorCode
  pub extras : Extras
  pub next_actions : Option (List NextAction)

pub record HttpException : Type 0 where
  pub status_code : ℕ
  pub detail : Json
  pub headers : List (String × String)
  pub api : Option Details

abbrev lower_keys : List (String × String) → List (String × String)
lower_keys [] = []
lower_keys ((k, v) ∷ hs) = (lower k, v) ∷ lower_keys hs

-- `_retry_after`; `read_int` is `int` on a text, and `none` where that raises. The names of headers
-- are distinct without their case.
unfoldable pub header_wait : (String → Option ℕ) → List (String × String) → Option ℕ
unfolding lookup lower
header_wait read_int headers = elim (lookup "retry-after" (lower_keys headers)) [
  | none ↦ none
  | some v ↦ read_int v
]

abbrev is_wait : Extras → Bool
is_wait (retry_after n) = true
is_wait _ = false

-- The fields that the body has beside those of every error.
abbrev add_extras : Extras → List Extras
add_extras no_extras = []
add_extras x = x ∷ []

abbrev add_wait : Option ℕ → List Extras → List Extras
add_wait none xs = xs
add_wait (some n) xs = xs ++ retry_after n ∷ []

abbrev code_of : HttpException → ErrorCode
code_of x = elim x.api [ none ↦ default_code_for_status x.status_code | some a ↦ a.error_code ]

abbrev own_extras : HttpException → List Extras
own_extras x = elim x.api [ none ↦ [] | some a ↦ add_extras a.extras ]

abbrev own_actions : HttpException → Option (List NextAction)
own_actions x = elim x.api [ none ↦ none | some a ↦ a.next_actions ]

unfoldable pub resolve_http_exception :
    (String → Option ℕ) → HttpException → ErrorCode × List Extras × Option (List NextAction)
unfolding header_wait default_code_for_status
resolve_http_exception read_int x = (
  code_of x,
  if eqb x.status_code 429 && not (any is_wait (own_extras x))
      then add_wait (header_wait read_int x.headers) (own_extras x)
      else own_extras x,
  own_actions x,
)

pub record ErrorBody : Type 0 where
  pub error_code : ErrorCode
  pub message : String
  pub detail : Json
  pub extras : List Extras
  pub next_actions : List NextAction

-- The extra field that an action reads, of those of the body.
abbrev main_extra : List Extras → Extras
main_extra [] = no_extras
main_extra (x ∷ xs) = x

unfoldable pub build_error_body :
    JsonLibrary
    → ErrorCode
    → Json
    → (method path : String) → List Extras
    → Option (List NextAction)
    → ErrorBody
unfolding message_for next_actions_for
build_error_body lib code detail method path extras explicit = record {
  error_code = code;
  message = message_for lib detail;
  detail = detail;
  extras = extras;
  next_actions = or_else explicit (next_actions_for code method path (main_extra extras));
}

-- The status and the body of the response to an exception that is an HTTPException.
unfoldable pub http_error_response :
    JsonLibrary → (String → Option ℕ) → HttpException → (method path : String) → ℕ × ErrorBody
unfolding resolve_http_exception build_error_body
http_error_response lib read_int x method path =
    let (code, extras, explicit) = resolve_http_exception read_int x in
    (x.status_code, build_error_body lib code x.detail method path extras explicit)

-- The handlers of `install_error_handlers`: an HTTPException, a body that fails validation, and any
-- other exception.
pub data Raised : Type 0 where
  http : HttpException → Raised
  invalid : Json → Raised
  unhandled : Raised

unfoldable pub respond :
    JsonLibrary → (String → Option ℕ) → Raised → (method path : String) → ℕ × ErrorBody
unfolding http_error_response build_error_body
respond lib read_int (http x) method path = http_error_response lib read_int x method path
respond lib read_int (invalid errors) method path =
    (422, build_error_body lib validation_error errors method path [] none)
respond lib read_int unhandled method path =
    (500, build_error_body lib internal_error (str "Internal server error.") method path [] none)
