-- ===== src/Tests/Handlers.antt =====
-- The handlers at concrete requests.
use agent_discovery_board.Prelude.{
  zero, suc, ◌≡◌, refl, ap, true, false, none, some, [], ◌∷◌, or_else, lower, strip, get_field,
}
use mathlib.Core.Path.{subst}
use agent_discovery_board.Tests.Data.{
  alice, bob, urls, offering, imported, tables, process, request, body,
}
use agent_discovery_board.Errors.{err}
use agent_discovery_board.Listing.{Listing}
use agent_discovery_board.Endpoint.{
  normalize_endpoint_url, normalize_host, normalize_path, strip_end, collapse_slashes, sort_pairs,
  default_port,
}
use agent_discovery_board.Models.{is_reserved_address}
use agent_discovery_board.Models.Shapes.{is_evm_address}
use agent_discovery_board.Store.{
  Db, Patch, empty_patch, get_listing, is_guarded, same_offering, same_import, clash, replace,
  insert, update_where, create_listing, find_active_duplicate,
}
use agent_discovery_board.Store
use agent_discovery_board.Store.Writes.{IsConsistent}
use agent_discovery_board.WalletAuth.{
  to_int, parse_header, verify_header, verify_wallet_auth, claim_nonce, prune_expired_nonces,
  check_signer,
}
use agent_discovery_board.Maintenance.{maybe_purge, is_test_name}
use agent_discovery_board.Board.Monad.{
  State, Env, duplicate_error, ◌>>=◌, rate_limit_mutation, verify,
}
use agent_discovery_board.Board.Create.{
  run_purge, refuse_duplicate, insert_row, new_row, create_valid,
}
use agent_discovery_board.Board.Owner.{claim_row, write_claim}
use agent_discovery_board.Board.Requests.{post, delete, handle, serve, serve-IsConsistent}
use agent_discovery_board.Board.Frames.{is_accepted}
use agent_discovery_board.Board.Authority.{signed_request, unsigned_unchanged}
use agent_discovery_board.Board.Transfer.{Transferred, claim_row-Transferred}
use agent_discovery_board.Board.Again.{create_again_refused}

-- Bob asks to delete the listing of Alice.
unsigned_unchanged_example : (handle (request (some bob)) (delete "a") process).1.db ≡ tables
unfolding get_listing signed_request is_accepted verify_wallet_auth parse_header to_int get_field
    verify_header claim_nonce prune_expired_nonces check_signer lower
unsigned_unchanged_example =
    unsigned_unchanged (request (some bob)) (delete "a") "a" process (λ n db. refl) refl
      (λ r found.
        subst
          (λ x.
            is_accepted (request (some bob))
              (signed_request (request (some bob)) (delete "a") "a" x) []
            ≡ false)
          (ap (λ o. or_else o offering) found) refl)

pub tables-IsConsistent : IsConsistent urls tables
unfolding clash same_offering same_import is_guarded normalize_endpoint_url normalize_host
    normalize_path strip_end collapse_slashes sort_pairs default_port lower strip
tables-IsConsistent = record { unique = (refl, (refl, tt)); keys = (refl, (refl, tt)) }

serve-IsConsistent_example :
    IsConsistent urls
      (serve process ((request (some alice), delete "a") ∷ (request none, post body) ∷ [])).db
serve-IsConsistent_example =
    serve-IsConsistent urls ((request (some alice), delete "a") ∷ (request none, post body) ∷ [])
      process ((refl, λ n db c. c), ((refl, λ n db c. c), tt)) tables-IsConsistent

-- Another request removes every row before the second statement.
abbrev outrun : Env
outrun = record (request (some alice)) {
  between = λ n db. elim n [ zero ↦ db | suc m ↦ record db { listings = [] } ];
}

abbrev limited : State
limited = (rate_limit_mutation outrun process).1

abbrev claimed : Listing
claimed = record imported { submitted_by = alice; claimed = true; updated_at = 1000000000 }

claim_row-Transferred_example :
    Transferred
      (request (some alice))
      "i"
      imported
      process
      claimed
      (claim_row (request (some alice)) "i" imported process).1
unfolding claim_row write_claim Store.claim_listing update_where clash same_offering same_import
    is_guarded replace get_listing is_evm_address ◌>>=◌ verify verify_wallet_auth parse_header
    to_int get_field verify_header claim_nonce prune_expired_nonces check_signer lower
claim_row-Transferred_example =
    claim_row-Transferred (request (some alice)) "i" imported process
      (claim_row (request (some alice)) "i" imported process).1 claimed (λ n db. refl) refl refl

abbrev stored : Listing
stored = record (new_row "new" 1000000000 body) { endpoint_key = Store.key_of urls "s.example" }

create_again_refused_example :
    create_valid
      (record (request none) { new_id = "other" })
      body
      (create_valid (request none) body process).1
    ≡ (err (duplicate_error "new"), (create_valid (request none) body process).1)
unfolding create_valid run_purge maybe_purge refuse_duplicate insert_row new_row create_listing
    insert find_active_duplicate clash same_offering same_import is_guarded is_reserved_address
    ◌>>=◌ normalize_endpoint_url normalize_host normalize_path strip_end collapse_slashes sort_pairs
    default_port lower strip is_test_name
create_again_refused_example =
    create_again_refused (request none) (record (request none) { new_id = "other" }) body process
      (create_valid (request none) body process).1 stored (λ n db. refl) (λ n db. refl) refl refl
      refl refl
