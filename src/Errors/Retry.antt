-- ===== src/Errors/Retry.antt =====
-- app/core/errors.py: whether the next actions tell a client to sign again.
use agent_discovery_board.Prelude.{
  String, ◌≡◌, refl, ap, inl, inr, Bool, true, false, not, ◌&&◌, ◌||◌, List, [], ◌∷◌, arith, ◌==◌,
  eq_iff, eq_refl, Bool-cases, all, is_in,
}
use agent_discovery_board.Endpoint.{strip_end}
use agent_discovery_board.Errors.{
  ErrorCode, not_found, reserved_address, body_too_large, validation_error, invalid_task_category,
  invalid_pagination, empty_patch, Extras,
}
use agent_discovery_board.Errors.Actions.{
  NextAction, signature_header, split_path, is_signed_parts, strip_start, is_signed_request,
  next_actions_for,
}

-- An action that repeats the request names the signature header.
abbrev pub asks_signature : String → String → NextAction → Bool
asks_signature method path a =
    not (a.method == method && a.path == path) || is_in signature_header a.required_fields

-- The codes whose actions repeat a request without saying that it must be signed again.
abbrev pub tells_signature : ErrorCode → Bool
tells_signature reserved_address = false
tells_signature body_too_large = false
tells_signature validation_error = false
tells_signature invalid_task_category = false
tells_signature invalid_pagination = false
tells_signature empty_patch = false
tells_signature _ = true

get_parts : (parts : List String) → is_signed_parts "GET" parts ≡ false
get_parts [] = refl
get_parts (a ∷ []) = refl
get_parts (a ∷ b ∷ []) = ground arith
get_parts (a ∷ b ∷ c ∷ []) = ground arith
get_parts (a ∷ b ∷ c ∷ d ∷ parts) = refl

get_path : (path : String) → is_signed_request "GET" path ≡ false
unfolding is_signed_request
get_path path = get_parts (split_path (strip_start (strip_end b'/' path)))

root_path : (method : String) → is_signed_request method "/listings" ≡ false
unfolding is_signed_request
root_path method = refl

differs : (P : String → Bool) (a b : String) → P a ≡ false → P b ≡ true → a == b ≡ false
differs P a b p q = elim (Bool-cases (a == b)) [
  | inr e ↦ e
  | inl e ↦ absurd (ground (arith, ap P ((eq_iff a b).0 e)))
]

module _ (method path : String) (signed : is_signed_request method path ≡ true) where
  not_get : "GET" == method ≡ false
  not_get = differs (λ m. is_signed_request m path) "GET" method (get_path path) signed

  not_root : "/listings" == path ≡ false
  not_root = differs (λ p. is_signed_request method p) "/listings" path (root_path method) signed

  -- For a signed request that is refused, every next action that repeats it asks for the signature
  -- header, except with the six codes of `tells_signature`, where one does not.
  pub retry_signature :
      (code : ErrorCode) (given : Extras)
      → all (asks_signature method path) (next_actions_for code method path given)
        ≡ tells_signature code
  unfolding next_actions_for
  retry_signature not_found given = ground (arith, not_get, not_root)
  retry_signature code given =
      ground (arith, not_get, not_root, signed, eq_refl method, eq_refl path)
