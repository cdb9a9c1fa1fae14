-- ===== src/Board/Keeps.antt =====
-- app/api/routes/listings.py: what a handler keeps of the tables, step by step.
use agent_discovery_board.Prelude.{ℕ, String, Bool, true, false, Option, none, some, Json}
use agent_discovery_board.Errors.{ApiError, Result, ok, err, crash}
use agent_discovery_board.RateLimit.{check, Outcome, served, daily_limit, too_many}
use agent_discovery_board.Store.{Db, get_listing}
use agent_discovery_board.WalletAuth.{Action}
use agent_discovery_board.Listing.{Listing}
use agent_discovery_board.Board.Monad.{
  State, Env, Run, resume, ◌>>=◌, raise_if, raise_limit, rate_limit_creation, rate_limit_mutation,
  others_run, verify, found_or_404, get_or_404,
}

-- A predicate on the tables that a run keeps, however it ends.
abbrev pub Keeps : (Db → Type 0) → {A : Type 0} → Run A → Type 0
Keeps I m = (st : State) → I st.db → I (m st).1.db

module _ (I : Db → Type 0) where
  pub bind-Keeps :
      {A B : Type 0} (m : Run A) (f : A → Run B)
      → Keeps I m
      → ((a : A) → Keeps I (f a))
      → Keeps I (m >>= f)
  unfolding ◌>>=◌
  bind-Keeps {A} {B} m f hm hf st h = go (m st).0
    where
      go : (r : Result A) → I (resume f r (m st).1).1.db
      go (ok a) = hf a (m st).1 (hm st h)
      go (err e) = hm st h
      go crash = hm st h

  pub raise_if-Keeps : (c : Bool) (e : ApiError) → Keeps I (raise_if c e)
  raise_if-Keeps true e st h = h
  raise_if-Keeps false e st h = h

  pub raise_limit-Keeps : (out : Outcome) → Keeps I (raise_limit out)
  raise_limit-Keeps served st h = h
  raise_limit-Keeps (daily_limit n) st h = h
  raise_limit-Keeps (too_many n) st h = h

  pub found_or_404-Keeps : (o : Option Listing) → Keeps I (found_or_404 o)
  found_or_404-Keeps none st h = h
  found_or_404-Keeps (some r) st h = h

  module _ (env : Env) where
    pub creation-Keeps : Keeps I (rate_limit_creation env)
    unfolding rate_limit_creation
    creation-Keeps st h =
        let (l, out) = check st.create_limiter env.client env.mono env.wall in
        raise_limit-Keeps out (record st { create_limiter = l }) h

    pub mutation-Keeps : Keeps I (rate_limit_mutation env)
    unfolding rate_limit_mutation
    mutation-Keeps st h =
        let (l, out) = check st.mutate_limiter env.client env.mono env.wall in
        raise_limit-Keeps out (record st { mutate_limiter = l }) h

    pub others-Keeps :
        ((n : ℕ) (db : Db) → I db → I (env.between n db)) → (n : ℕ) → Keeps I (others_run env n)
    others-Keeps others n st h = others n st.db h

    pub verify-Keeps :
        (a : Action) (id who : String) (body : Option Json) → Keeps I (verify env a id who body)
    unfolding verify
    verify-Keeps a id who body st h = h

  pub get_or_404-Keeps : (id : String) → Keeps I (get_or_404 id)
  unfolding get_or_404
  get_or_404-Keeps id st h = found_or_404-Keeps (get_listing id st.db) st h
