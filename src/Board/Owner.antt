-- ===== src/Board/Owner.antt =====
-- app/api/routes/listings.py: `claim_listing`, `remove_imported_listing` and `heartbeat_listing`.
use agent_discovery_board.Prelude.{
  ℕ, ◌+◌, ◌-◌, ◌/◌, max, String, not, Option, none, some, is_none, or_else,
}
use agent_discovery_board.Errors.{
  api_error, already_claimed, unclaimable_payment_wallet, not_imported, not_found, listing_inactive,
}
use agent_discovery_board.Listing.{Listing, is_active}
use agent_discovery_board.Models.Shapes.{is_evm_address}
use agent_discovery_board.Store.{Db, Write, wrote, no_row, violation, failed}
use agent_discovery_board.Store
use agent_discovery_board.ImportStore
use agent_discovery_board.WalletAuth.{
  second, claim_listing, remove_imported_listing, heartbeat_listing,
}
use agent_discovery_board.Board.Monad.{
  Env, Run, pure, raise, escape, ◌>>=◌, ◌>>◌, raise_if, limit_error, rate_limit_mutation,
  others_run, verify, get_or_404, store,
}

abbrev require_evm_wallet : Listing → Run (Unit {0})
require_evm_wallet r =
    raise_if (not (is_evm_address r.payment_wallet)) (api_error 422 unclaimable_payment_wallet)

module _ (env : Env) where
  abbrev pub finish_claim : Write → Run Listing
  finish_claim (wrote r db) = store db >> pure r
  finish_claim no_row = raise (api_error 409 already_claimed)
  finish_claim violation = escape
  finish_claim failed = escape

  unfoldable pub write_claim : String → String → Run Listing
  write_claim id owner st = finish_claim (Store.claim_listing id owner env.wall st.db) st

  -- From the row that was read on.
  unfoldable pub claim_row : String → Listing → Run Listing
  unfolding write_claim
  claim_row id r = do
    raise_if r.claimed (api_error 409 already_claimed)
    require_evm_wallet r
    verify env claim_listing id r.payment_wallet none
    others_run env 1
    write_claim id r.payment_wallet

  unfoldable pub claim : String → Run Listing
  unfolding claim_row rate_limit_mutation get_or_404
  claim id = do rate_limit_mutation env; others_run env 0; r ← get_or_404 id; claim_row id r

  abbrev pub finish_removal : Option (Listing × Db) → Run Listing
  finish_removal none = raise (api_error 404 not_found)
  finish_removal (some (r, db)) = store db >> pure r

  unfoldable pub write_removal : String → Run Listing
  write_removal id st =
      finish_removal
        (ImportStore.remove_imported_listing env.urls id "removed by pay-to owner" env.wall st.db)
        st

  unfoldable pub remove_row : String → Listing → Run Listing
  unfolding write_removal
  remove_row id r = do
    raise_if (is_none r.source) (api_error 422 not_imported)
    require_evm_wallet r
    verify env remove_imported_listing id r.payment_wallet none
    others_run env 1
    write_removal id

  -- The response tells the id only; here it is the removed row.
  unfoldable pub remove_imported : String → Run Listing
  unfolding remove_row rate_limit_mutation get_or_404
  remove_imported id = do
    rate_limit_mutation env
    others_run env 0
    r ← get_or_404 id
    remove_row id r

  -- max(1, ceil(seen + interval - now)) in seconds
  unfoldable pub heartbeat_wait : Listing → ℕ
  heartbeat_wait r = max 1 (
      (or_else r.last_seen_at env.wall + env.heartbeat_interval - env.wall + (second - 1)) / second)

  abbrev pub finish_beat : String → Listing → Write → Run Listing
  finish_beat id r (wrote new db) = store db >> pure new
  finish_beat id r no_row = others_run env 2 >> λ st.
      raise (limit_error (heartbeat_wait (or_else (Store.get_listing id st.db) r))) st
  finish_beat id r violation = escape
  finish_beat id r failed = escape

  unfoldable pub write_beat : String → Listing → Run Listing
  unfolding heartbeat_wait
  write_beat id r st =
      finish_beat id r (Store.record_heartbeat id env.wall env.heartbeat_interval st.db) st

  unfoldable pub beat_row : String → Listing → Run Listing
  unfolding write_beat
  beat_row id r = do
    verify env heartbeat_listing id r.submitted_by none
    raise_if (not (is_active r.status)) (api_error 409 listing_inactive)
    others_run env 1
    write_beat id r

  unfoldable pub heartbeat : String → Run Listing
  unfolding beat_row rate_limit_mutation get_or_404
  heartbeat id = do rate_limit_mutation env; others_run env 0; r ← get_or_404 id; beat_row id r
