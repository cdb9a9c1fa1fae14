-- ===== src/Board/Outcomes.antt =====
-- app/api/routes/listings.py: how a request ends.
use agent_discovery_board.Prelude.{String, ◌≡◌, refl, none, some, Json}
use agent_discovery_board.Errors.{ok, crash}
use agent_discovery_board.Listing.{Listing}
use agent_discovery_board.Store.{
  Db, Patch, Write, wrote, no_row, violation, failed, get_listing, guarded_type, is_null,
  is_duplicate, find_active_duplicate, insert, clash, key_of, same_bool, update_listing,
  update_where, has_id,
}
use agent_discovery_board.Store
use agent_discovery_board.WalletAuth.{delete_listing}
use agent_discovery_board.Board.Change.{
  check_name, patch_row, is_empty_patch, write_inactive, deactivate_listing,
}
use agent_discovery_board.Board.Monad.{State, Env, ◌>>=◌, rate_limit_mutation, verify, get_or_404}

-- A PATCH whose name is null is no validation error: the handler fails with an exception that is
-- turned into a 500, whatever the listing and the signature.
pub null_name_crash :
    (env : Env) (id : String) (p : Patch) (raw : Json) (r : Listing) (st : State)
    → p.name ≡ some none
    → (patch_row env id p raw r st).0 ≡ crash
unfolding patch_row is_empty_patch check_name ◌>>=◌
null_name_crash env id p raw r st null_name = rw null_name refl

-- A DELETE with an accepted signature whose row is removed by another request between the read and
-- the write ends with an exception that is turned into a 500, not with the documented 404.
pub outrun_delete_crash :
    (env : Env) (id : String) (r : Listing) (st limited signed : State)
    → rate_limit_mutation env st ≡ (ok tt, limited)
    → get_listing id (env.between 0 limited.db) ≡ some r
    → verify env delete_listing id r.submitted_by none
        (record limited { db = env.between 0 limited.db })
      ≡ (ok tt, signed)
    → get_listing id (env.between 1 signed.db) ≡ none
    → (deactivate_listing env id st).0 ≡ crash
unfolding deactivate_listing get_or_404 write_inactive Store.set_listing_status update_listing
    update_where get_listing ◌>>=◌ Store.has_null
outrun_delete_crash env id r st limited signed l g v gone = rw (l, g, v, gone) refl
