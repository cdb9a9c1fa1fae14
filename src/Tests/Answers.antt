-- ===== src/Tests/Answers.antt =====
-- The response to a POST at a concrete request.
use agent_discovery_board.Prelude.{◌≡◌, ◌⊎◌, refl, true, false, some, none, is_some}
use agent_discovery_board.Tests.Data.{process, request, body}
use agent_discovery_board.Tests.Browse.{view}
use agent_discovery_board.Errors.{crash}
use agent_discovery_board.RateLimit.{check}
use agent_discovery_board.Models.{ListingCreate, validate_create, is_reserved_address}
use agent_discovery_board.Maintenance.{maybe_purge}
use agent_discovery_board.Board.Monad.{Env, ◌>>=◌, rate_limit_creation}
use agent_discovery_board.Board.Create.{
  create_listing, create_valid, new_row, run_purge, refuse_duplicate, insert_row,
}
use agent_discovery_board.Board.Responses.{post_listing}
use agent_discovery_board.Board.FactTypes.{is_typed}
use agent_discovery_board.Board.Typed.{badge_fits}
use agent_discovery_board.Board.Answers.{post_listing_crash, stored_row}
use agent_discovery_board.RateLimit.{
  check_ip, is_capped, roll_day, count_request, counted, get, prune,
}
use agent_discovery_board.Models.{
  validate_listing_type, validate_task_categories, validate_https_url, has_valid_fields,
  is_small_object, validate_generic_url, validate_payment_wallet,
}
use agent_discovery_board.Models.Shapes.{
  is_slug, chomp, has_control_chars, is_evm_address, byte_length, is_amount, split_at, index_of,
}
use agent_discovery_board.Models.Payment.{
  is_payment_option, is_network_address, is_valid_caip2_id, is_chain_reference,
}
use agent_discovery_board.Models.Pricing.{has_no_pricing, is_priced, option_price}
use agent_discovery_board.Maintenance.{is_test_name}
use agent_discovery_board.Endpoint.{
  collapse_slashes, default_port, insert_pair, normalize_endpoint_url, normalize_host,
  normalize_path, sort_pairs, strip_end,
}
use agent_discovery_board.Store.{find_active_duplicate, is_guarded}
use agent_discovery_board.Prelude.{lower, strip}

-- PostgreSQL takes no row, as of a body with a NUL in its output schema.
abbrev unstorable : Env
unstorable = record (request none) { storable = λ row. false }

unstorable_crash : (post_listing view unstorable body process).0 ≡ crash
unfolding post_listing create_listing create_valid run_purge maybe_purge refuse_duplicate insert_row
    rate_limit_creation ◌>>=◌ check validate_create is_reserved_address check_ip is_capped roll_day
    count_request counted get prune validate_listing_type validate_task_categories
    validate_https_url has_valid_fields is_small_object validate_generic_url validate_payment_wallet
    is_slug chomp has_control_chars is_evm_address byte_length is_amount split_at index_of
    is_payment_option is_network_address is_valid_caip2_id is_chain_reference has_no_pricing
    is_priced option_price is_test_name collapse_slashes default_port insert_pair
    normalize_endpoint_url normalize_host normalize_path sort_pairs strip_end find_active_duplicate
    is_guarded lower strip
unstorable_crash = refl

post_listing_crash_example :
    (p : ListingCreate) × (validate_create unstorable.models body ≡ some p)
    × ((unstorable.storable (new_row unstorable.new_id unstorable.wall p) ≡ false)
        ⊎ ((badge_fits view (stored_row unstorable p) ≡ false)
            ⊎ ((is_some p.output_schema ≡ true) × (is_typed view.facts view.snapshot ≡ false))))
post_listing_crash_example = post_listing_crash view unstorable body process unstorable_crash
