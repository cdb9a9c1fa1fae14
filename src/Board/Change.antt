-- ===== src/Board/Change.antt =====
-- app/api/routes/listings.py: `update_listing` (PATCH) and `deactivate_listing` (DELETE).
use agent_discovery_board.Prelude.{
  String, Bool, true, false, not, ◌&&◌, ◌||◌, Option, none, some, ◌==◌, if◌then◌else◌, is_none,
  is_some, or_else, Json,
}
use agent_discovery_board.Errors.{api_error, validation_error, empty_patch, invalid_test_name}
use agent_discovery_board.Listing.{Status, inactive, Listing, is_active}
use agent_discovery_board.Models.{validate_update}
use agent_discovery_board.Models.Pricing.{is_priced}
use agent_discovery_board.Store.{
  Db, Patch, Write, wrote, no_row, violation, failed, guarded_type, is_null, assign,
}
use agent_discovery_board.Store
use agent_discovery_board.WalletAuth.{update_listing, delete_listing}
use agent_discovery_board.Maintenance.{is_test_name}
use agent_discovery_board.Board.Monad.{
  Env, Run, pure, raise, escape, ◌>>=◌, ◌>>◌, raise_if, duplicate_error, id_or_unknown,
  rate_limit_mutation, others_run, verify, get_or_404, store,
}
use agent_discovery_board.Board.Create.{valid_or_422, refuse_found}

-- not patch
unfoldable pub is_empty_patch : Patch → Bool
is_empty_patch p =
    is_none p.name
    && is_none p.description
    && is_none p.listing_type
    && is_none p.task_categories
    && is_none p.endpoint_url
    && is_none p.payment_wallet
    && is_none p.pricing_model
    && is_none p.pricing_amount
    && is_none p.payment_options
    && is_none p.erc8004_identity
    && is_none p.verification_agent_id
    && is_none p.output_schema
    && is_none p.verification
    && is_none p.template_url
    && is_none p.status

abbrev same_bool : Bool → Bool → Bool
same_bool true b = b
same_bool false b = not b

-- The guard on the prefix that marks test data. A null name has no `startswith`.
unfoldable pub check_name : Option (Option String) → Bool → Run (Unit {0})
check_name none is_test = pure tt
check_name (some none) is_test = escape
check_name (some (some name)) is_test =
    raise_if (not (same_bool (is_test_name name) is_test)) (api_error 422 invalid_test_name)

-- The merged type, where null is in no set of types, like "".
abbrev pub merged_type : Patch → Listing → String
merged_type p r = or_else (or_else p.listing_type (some r.listing_type)) ""

unfoldable pub check_merged_pricing : Patch → Listing → Run (Unit {0})
check_merged_pricing p r =
    raise_if
      (not (
        is_priced (merged_type p r) (or_else p.pricing_model r.pricing_model)
          (or_else p.pricing_amount r.pricing_amount)
          (or_else p.payment_options r.payment_options)))
      (api_error 422 validation_error)

abbrev is_active_status : Option Status → Bool
is_active_status none = false
is_active_status (some s) = is_active s

-- Where the patch may make the row a duplicate.
unfoldable pub may_duplicate : Patch → Listing → Bool
may_duplicate p r =
    merged_type p r == guarded_type
    && is_active_status (or_else p.status (some r.status))
    && (is_some p.endpoint_url || is_some p.status || is_some p.listing_type)

module _ (env : Env) where
  -- find_active_duplicate for the row after the patch, itself excluded
  abbrev pub other_offering : String → Patch → Listing → Db → Option Listing
  other_offering id p r db =
      Store.find_active_duplicate env.urls (assign p.endpoint_url r.endpoint_url) r.submitted_by
        (some id) r.is_test db

  -- A null URL cannot be normalized.
  unfoldable pub refuse_clash : String → Patch → Listing → Run (Unit {0})
  unfolding may_duplicate
  refuse_clash id p r st =
      (if may_duplicate p r
          then (if is_null p.endpoint_url
              then escape
              else refuse_found (other_offering id p r st.db))
          else pure tt)
        st

  -- The response is built from the row, so a row that is gone is a TypeError.
  abbrev pub finish_patch : String → Patch → Listing → Write → Run Listing
  finish_patch id p r (wrote new db) = store db >> pure new
  finish_patch id p r violation = if is_null p.endpoint_url then escape else λ st.
      raise (duplicate_error (id_or_unknown (other_offering id p r st.db))) st
  finish_patch id p r no_row = escape
  finish_patch id p r failed = escape

  unfoldable pub write_patch : String → Patch → Listing → Run Listing
  write_patch id p r st = finish_patch id p r (Store.update_listing env.urls id p env.wall st.db) st

  -- From the row that was read on. The signed body is the JSON object as it was sent.
  unfoldable pub patch_row : String → Patch → Json → Listing → Run Listing
  unfolding write_patch refuse_clash check_merged_pricing
  patch_row id p raw r = do
    raise_if (is_empty_patch p) (api_error 422 empty_patch)
    check_name p.name r.is_test
    verify env update_listing id r.submitted_by (some raw)
    check_merged_pricing p r
    others_run env 1
    refuse_clash id p r
    others_run env 2
    write_patch id p r

  unfoldable pub patch_listing : String → Patch → Json → Run Listing
  unfolding patch_row rate_limit_mutation get_or_404
  patch_listing id body raw = do
    rate_limit_mutation env
    p ← valid_or_422 (validate_update env.models body)
    others_run env 0
    r ← get_or_404 id
    patch_row id p raw r

  abbrev pub finish_status : Write → Run Listing
  finish_status (wrote new db) = store db >> pure new
  finish_status _ = escape

  unfoldable pub write_inactive : String → Run Listing
  write_inactive id st =
      finish_status (Store.set_listing_status env.urls id inactive env.wall st.db) st

  unfoldable pub deactivate_listing : String → Run Listing
  unfolding write_inactive rate_limit_mutation get_or_404
  deactivate_listing id = do
    rate_limit_mutation env
    others_run env 0
    r ← get_or_404 id
    verify env delete_listing id r.submitted_by none
    others_run env 1
    write_inactive id
