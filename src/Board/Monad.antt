-- ===== src/Board/Monad.antt =====
-- app/api/routes/listings.py: the state that the handlers of one process share, a request with its
-- surroundings, and the steps that every handler takes: a failure keeps what was written before it.
use agent_discovery_board.Prelude.{ℕ, String, Bool, Option, none, some, if◌then◌else◌, Json}
use agent_discovery_board.Errors.{
  ApiError, Extras, existing_listing_id, Result, ok, err, crash, api_error, rate_limited, not_found,
  duplicate_listing,
}
use agent_discovery_board.RateLimit.{RateLimiter, Outcome, served, daily_limit, too_many, check}
use agent_discovery_board.WalletAuth.{Action, Libraries, Nonces, verify_wallet_auth}
use agent_discovery_board.Endpoint.{UrlLibrary}
use agent_discovery_board.Listing.{Listing}
use agent_discovery_board.Models.{ModelLibrary}
use agent_discovery_board.Store.{Db, get_listing}
use agent_discovery_board.Maintenance.{Throttle}

pub record State : Type 0 where
  pub db : Db
  pub nonces : Nonces
  pub create_limiter : RateLimiter
  pub mutate_limiter : RateLimiter
  pub throttle : Throttle

-- A request and its surroundings: the libraries, the configuration, the two clocks in microseconds,
-- the client and the signature header, the id that `uuid4` draws, whether the purge fails, whether
-- PostgreSQL takes the values of a new row, and what other requests do to the tables before the
-- handler's n-th statement.
pub record Env : Type 0 where
  pub lib : Libraries
  pub urls : UrlLibrary
  pub models : ModelLibrary
  pub max_age : ℕ
  pub heartbeat_interval : ℕ
  pub wall : ℕ
  pub mono : ℕ
  pub client : Option String
  pub header : Option String
  pub new_id : String
  pub purge_fails : Bool
  pub between : ℕ → Db → Db
  pub storable : Listing → Bool

-- `Action` is the name of a signed action, so a step of a handler is a `Run`.
abbrev pub Run : Type 0 → Type 0
Run A = State → Result A × State

module _ {A : Type 0} where
  abbrev pub pure : A → Run A
  pure a st = (ok a, st)

  abbrev pub raise : ApiError → Run A
  raise e st = (err e, st)

  -- An exception that is no ApiError.
  abbrev pub escape : Run A
  escape st = (crash, st)

-- What follows a step: it runs on the value that the step returned, else the failure stays.
abbrev pub resume : {A B : Type 0} → (A → Run B) → Result A → Run B
resume f (ok a) = f a
resume f (err e) = raise e
resume f crash = escape

infixl 5 ◌>>=◌ ◌>>◌
unfoldable pub ◌>>=◌ : {A B : Type 0} → Run A → (A → Run B) → Run B
◌>>=◌ m f st = let (r, st') = m st in resume f r st'

abbrev pub ◌>>◌ : {A B : Type 0} → Run A → Run B → Run B
m >> k = m >>= λ _. k

abbrev pub raise_if : Bool → ApiError → Run (Unit {0})
raise_if c e = if c then raise e else pure tt

abbrev pub limit_error : ℕ → ApiError
limit_error seconds = record {
  status_code = 429;
  error_code = rate_limited;
  extras = Extras.retry_after seconds;
}

abbrev pub raise_limit : Outcome → Run (Unit {0})
raise_limit served = pure tt
raise_limit (daily_limit n) = raise (limit_error n)
raise_limit (too_many n) = raise (limit_error n)

-- `_duplicate_error`
unfoldable pub duplicate_error : String → ApiError
duplicate_error id = record {
  status_code = 409;
  error_code = duplicate_listing;
  extras = existing_listing_id id;
}

-- The id that a duplicate error names; "unknown" where the row is gone again.
abbrev pub id_or_unknown : Option Listing → String
id_or_unknown none = "unknown"
id_or_unknown (some r) = r.id

module _ (env : Env) where
  -- `rate_limit_listing_creation`
  unfoldable pub rate_limit_creation : Run (Unit {0})
  rate_limit_creation st =
      let (l, out) = check st.create_limiter env.client env.mono env.wall in
      raise_limit out (record st { create_limiter = l })

  -- `rate_limit_listing_mutation`
  unfoldable pub rate_limit_mutation : Run (Unit {0})
  rate_limit_mutation st =
      let (l, out) = check st.mutate_limiter env.client env.mono env.wall in
      raise_limit out (record st { mutate_limiter = l })

  -- Other requests, before the n-th statement of the handler.
  abbrev pub others_run : ℕ → Run (Unit {0})
  others_run n st = (ok tt, record st { db = env.between n st.db })

  -- `verify_wallet_auth` on the tables of this process.
  unfoldable pub verify : Action → String → String → Option Json → Run (Unit {0})
  verify action listing_id submitted_by body st =
      let (r, seen) =
        verify_wallet_auth env.lib env.max_age env.wall env.mono
          (record {
            header = env.header;
            action = action;
            listing_id = listing_id;
            submitted_by = submitted_by;
            body = body;
          })
          st.nonces in
      (r, record st { nonces = seen })

-- db.get_listing, with the 404 of every handler.
abbrev pub found_or_404 : Option Listing → Run Listing
found_or_404 none = raise (api_error 404 not_found)
found_or_404 (some r) = pure r

unfoldable pub get_or_404 : String → Run Listing
get_or_404 id st = found_or_404 (get_listing id st.db) st

abbrev pub store : Db → Run (Unit {0})
store db st = (ok tt, record st { db = db })
