-- ===== src/Tests/Responses.antt =====
-- Error bodies and bounded bodies at concrete requests.
use agent_discovery_board.Prelude.{
  ◌≤◌, ◌≡◌, ◌↔◌, refl, true, false, none, some, pos, List, [], ◌∷◌, all, lookup,
}
use agent_discovery_board.Errors.{validation_error, no_extras}
use agent_discovery_board.Errors.Actions.{
  is_signed_request, split_path, strip_start, next_actions_for,
}
use agent_discovery_board.Errors.Retry.{asks_signature, retry_signature}
use agent_discovery_board.Endpoint.{strip_end}
use agent_discovery_board.BodyLimit.{
  Message, request, Scope, Middleware, last_header, limit_for, too_big, deliver, call, call_bounded,
  Outcome, passed, refused,
}

retry_signature_example :
    all
      (asks_signature "PATCH" "/listings/a")
      (next_actions_for validation_error "PATCH" "/listings/a" no_extras)
    ≡ false
unfolding is_signed_request split_path strip_start strip_end
retry_signature_example = retry_signature "PATCH" "/listings/a" refl validation_error no_extras

abbrev small : Middleware
small = record { max_bytes = 4; path_limits = ("/admin/import", 100) ∷ [] }

abbrev posted : Scope
posted = record { is_http = true; path = "/listings"; headers = [] }

abbrev sent : List Message
sent = request (1 ∷ 2 ∷ 3 ∷ []) ∷ request (4 ∷ 5 ∷ []) ∷ []

abbrev cut : Outcome
cut = passed (request (1 ∷ 2 ∷ 3 ∷ []) ∷ []) true

call_bounded_example :
    (3 ≤ 4)
    × ((cut ≡ passed sent false) ↔ ((false ≡ false) × (5 ≤ 4)))
    × ((cut ≡ refused) ↔ (false ≡ true))
unfolding call too_big last_header limit_for deliver lookup
call_bounded_example = call_bounded (λ s. none) small posted sent refl

-- A length that is declared too large: nothing is delivered, though the body would be within the limit.
overstated :
    call
      (λ s. some (pos 9))
      small
      (record posted { headers = ("content-length", "9") ∷ [] })
      (request (1 ∷ []) ∷ [])
    ≡ refused
unfolding call too_big last_header limit_for lookup
overstated = refl
