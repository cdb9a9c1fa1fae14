-- ===== src/Board/Create.antt =====
-- app/api/routes/listings.py: `create_listing`, POST /listings.
use agent_discovery_board.Prelude.{ℕ, String, true, Option, none, some, ◌==◌, if◌then◌else◌}
use agent_discovery_board.Errors.{ok, api_error, validation_error, reserved_address}
use agent_discovery_board.Listing.{active, Listing}
use agent_discovery_board.Models.{ListingCreate, validate_create, is_reserved_address}
use agent_discovery_board.Store.{Db, Write, wrote, no_row, violation, failed, guarded_type}
use agent_discovery_board.Store
use agent_discovery_board.Maintenance.{is_test_name, maybe_purge}
use agent_discovery_board.Board.Monad.{
  Env, Run, pure, raise, escape, ◌>>=◌, ◌>>◌, raise_if, duplicate_error, id_or_unknown,
  rate_limit_creation, others_run, store,
}

abbrev pub valid_or_422 : {A : Type 0} → Option A → Run A
valid_or_422 none = raise (api_error 422 validation_error)
valid_or_422 (some a) = pure a

abbrev pub refuse_found : Option Listing → Run (Unit {0})
refuse_found none = pure tt
refuse_found (some r) = raise (duplicate_error r.id)

-- The row of a new listing; `create_listing` of the database computes its key.
unfoldable pub new_row : String → ℕ → ListingCreate → Listing
new_row id now p = record {
  id = id;
  name = p.name;
  description = p.description;
  listing_type = p.listing_type;
  task_categories = p.task_categories;
  endpoint_url = p.endpoint_url;
  payment_wallet = p.payment_wallet;
  pricing_model = p.pricing_model;
  pricing_amount = p.pricing_amount;
  payment_options = p.payment_options;
  erc8004_identity = p.erc8004_identity;
  verification_agent_id = p.verification_agent_id;
  submitted_by = p.submitted_by;
  status = active;
  is_test = is_test_name p.name;
  created_at = now;
  updated_at = now;
  last_seen_at = none;
  claimed = true;
  source = none;
  source_url = none;
  imported_at = none;
  last_synced_at = none;
  missing_from_source_since = none;
  output_schema = p.output_schema;
  verification = p.verification;
  template_url = p.template_url;
  endpoint_key = "";
}

module _ (env : Env) where
  unfoldable pub run_purge : Run (Unit {0})
  run_purge st =
      let (t, db) = maybe_purge st.throttle env.mono env.wall env.purge_fails st.db in
      (ok tt, record st { throttle = t; db = db })

  -- find_active_duplicate for the payload
  abbrev pub duplicate_of : ListingCreate → Db → Option Listing
  duplicate_of p db =
      Store.find_active_duplicate env.urls p.endpoint_url p.submitted_by none (is_test_name p.name)
        db

  unfoldable pub refuse_duplicate : ListingCreate → Run (Unit {0})
  refuse_duplicate p st =
      (if p.listing_type == guarded_type then refuse_found (duplicate_of p st.db) else pure tt) st

  abbrev pub finish_create : ListingCreate → Write → Run Listing
  finish_create p (wrote r db) = store db >> pure r
  finish_create p violation =
      λ st. raise (duplicate_error (id_or_unknown (duplicate_of p st.db))) st
  finish_create p no_row = escape
  finish_create p failed = escape

  -- A row that PostgreSQL does not take, as one with a NUL in its output schema, is another exception
  -- than a UniqueViolation.
  unfoldable pub insert_row : ListingCreate → Run Listing
  unfolding new_row
  insert_row p st =
      let row = new_row env.new_id env.wall p in
      if env.storable row
      then finish_create p (Store.create_listing env.urls row st.db) st
      else escape st

  -- The handler up to its row, on a body that its model has let through.
  unfoldable pub create_valid : ListingCreate → Run Listing
  unfolding run_purge refuse_duplicate insert_row
  create_valid p = do
    raise_if (is_reserved_address p.submitted_by) (api_error 422 reserved_address)
    others_run env 0
    run_purge
    others_run env 1
    refuse_duplicate p
    others_run env 2
    insert_row p

  -- The handler up to its row; `Board.Responses.post_listing` is the whole, with the response.
  -- The rate limit comes before the body is refused, as the framework solves a route's
  -- dependencies first.
  unfoldable pub create_listing : ListingCreate → Run Listing
  unfolding create_valid rate_limit_creation
  create_listing body = do
    rate_limit_creation env
    p ← valid_or_422 (validate_create env.models body)
    create_valid p
