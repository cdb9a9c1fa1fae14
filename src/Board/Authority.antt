-- ===== src/Board/Authority.antt =====
-- app/api/routes/listings.py: who may change a listing.
use agent_discovery_board.Prelude.{String, ◌≡◌, refl, false, Option, none, some, arith}
use agent_discovery_board.Store.{get_listing}
use agent_discovery_board.Listing.{Listing}
use agent_discovery_board.WalletAuth.{
  Request, update_listing, delete_listing, heartbeat_listing, claim_listing,
  remove_imported_listing,
}
use agent_discovery_board.Board.Create.{valid_or_422}
use agent_discovery_board.Board.Change.{check_name, patch_row, deactivate_listing}
use agent_discovery_board.Board.Owner.{claim_row, remove_row, beat_row}
use agent_discovery_board.Board.Monad.{State, Env, raise_if, rate_limit_mutation}
use agent_discovery_board.Models.{validate_update}
use agent_discovery_board.Board.Change.{patch_listing}
use agent_discovery_board.Board.Owner.{claim, remove_imported, heartbeat}
use agent_discovery_board.Board.Requests.{
  Call, post, patch, delete, claiming, removing, beating, handle,
}
use agent_discovery_board.Board.Frames.{
  is_accepted, IsQuiet, bind-Same, raise_if-Same, check_name-Same, valid-Same, mutation-Same,
  verify-Same, read-Same,
}

-- The listing that a signed request is about.
abbrev pub target : Call → Option String
target (post body) = none
target (patch id p raw) = some id
target (delete id) = some id
target (claiming id) = some id
target (removing id) = some id
target (beating id) = some id

-- What a signed request must be signed for, given the row: the action, the listing, the body where
-- there is one, by the owner or, for an import, by the wallet that is paid.
unfoldable pub signed_request : Env → Call → String → Listing → Request
signed_request env (patch _ p raw) id r = record {
  header = env.header;
  action = update_listing;
  listing_id = id;
  submitted_by = r.submitted_by;
  body = some raw;
}
signed_request env (claiming _) id r = record {
  header = env.header;
  action = claim_listing;
  listing_id = id;
  submitted_by = r.payment_wallet;
  body = none;
}
signed_request env (removing _) id r = record {
  header = env.header;
  action = remove_imported_listing;
  listing_id = id;
  submitted_by = r.payment_wallet;
  body = none;
}
signed_request env (beating _) id r = record {
  header = env.header;
  action = heartbeat_listing;
  listing_id = id;
  submitted_by = r.submitted_by;
  body = none;
}
signed_request env _ id r = record {
  header = env.header;
  action = delete_listing;
  listing_id = id;
  submitted_by = r.submitted_by;
  body = none;
}

-- A request on a listing whose signature is not accepted for the address that may make it, be it
-- missing, stale, replayed, forged or another's, leaves the tables as they are, on whatever branch
-- the handler ends, if no other request writes to them meanwhile.
pub unsigned_unchanged :
    (env : Env) (c : Call) (id : String) (st : State)
    → IsQuiet env
    → target c ≡ some id
    → ((r : Listing)
        → get_listing id st.db ≡ some r
        → is_accepted env (signed_request env c id r) st.nonces ≡ false)
    → (handle env c st).1.db ≡ st.db
unfolding handle signed_request patch_listing patch_row deactivate_listing claim claim_row
    remove_imported remove_row heartbeat beat_row
unsigned_unchanged env (post body) id st quiet aims refused = absurd (ground arith)
unsigned_unchanged env (patch i p raw) id st quiet aims refused =
    let same : i ≡ id = ground arith in
    bind-Same st (rate_limit_mutation env) _ st (mutation-Same st env quiet st (refl, refl))
      (λ _ st1 _ s1.
        bind-Same st (valid_or_422 (validate_update env.models p)) _ st1 (valid-Same st _ st1 s1)
          (λ q st2 _ s2. read-Same st env quiet _ i st2 s2 (λ r st3 found s3.
            bind-Same st (raise_if _ _) _ st3 (raise_if-Same st _ _ st3 s3) (λ _ st4 _ s4.
              bind-Same st (check_name q.name r.is_test) _ st4
                (check_name-Same st q.name r.is_test st4 s4)
                (λ _ st5 _ s5.
                  verify-Same st env quiet _ update_listing i r.submitted_by (some raw) st5 s5
                    (rw same (refused r (rw same at found))))))))
unsigned_unchanged env (delete i) id st quiet aims refused =
    let same : i ≡ id = ground arith in
    bind-Same st (rate_limit_mutation env) _ st (mutation-Same st env quiet st (refl, refl))
      (λ _ st1 _ s1. read-Same st env quiet _ i st1 s1 (λ r st2 found s2.
        verify-Same st env quiet _ delete_listing i r.submitted_by none st2 s2
          (rw same (refused r (rw same at found)))))
unsigned_unchanged env (claiming i) id st quiet aims refused =
    let same : i ≡ id = ground arith in
    bind-Same st (rate_limit_mutation env) _ st (mutation-Same st env quiet st (refl, refl))
      (λ _ st1 _ s1. read-Same st env quiet _ i st1 s1 (λ r st2 found s2.
        bind-Same st (raise_if _ _) _ st2 (raise_if-Same st _ _ st2 s2) (λ _ st3 _ s3.
          bind-Same st (raise_if _ _) _ st3 (raise_if-Same st _ _ st3 s3) (λ _ st4 _ s4.
            verify-Same st env quiet _ claim_listing i r.payment_wallet none st4 s4
              (rw same (refused r (rw same at found)))))))
unsigned_unchanged env (removing i) id st quiet aims refused =
    let same : i ≡ id = ground arith in
    bind-Same st (rate_limit_mutation env) _ st (mutation-Same st env quiet st (refl, refl))
      (λ _ st1 _ s1. read-Same st env quiet _ i st1 s1 (λ r st2 found s2.
        bind-Same st (raise_if _ _) _ st2 (raise_if-Same st _ _ st2 s2) (λ _ st3 _ s3.
          bind-Same st (raise_if _ _) _ st3 (raise_if-Same st _ _ st3 s3) (λ _ st4 _ s4.
            verify-Same st env quiet _ remove_imported_listing i r.payment_wallet none st4 s4
              (rw same (refused r (rw same at found)))))))
unsigned_unchanged env (beating i) id st quiet aims refused =
    let same : i ≡ id = ground arith in
    bind-Same st (rate_limit_mutation env) _ st (mutation-Same st env quiet st (refl, refl))
      (λ _ st1 _ s1. read-Same st env quiet _ i st1 s1 (λ r st2 found s2.
        verify-Same st env quiet _ heartbeat_listing i r.submitted_by none st2 s2
          (rw same (refused r (rw same at found)))))
