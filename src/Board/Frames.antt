-- ===== src/Board/Frames.antt =====
-- app/api/routes/listings.py: the steps of a handler that leave the tables alone, up to a signature
-- that is refused.
use agent_discovery_board.Prelude.{
  ℕ, String, ◌≡◌, refl, sym, ap, ◌∙◌, Bool, true, false, Option, none, some, arith, Json,
}
use agent_discovery_board.Errors.{ApiError, Result, ok, err, crash}
use agent_discovery_board.Store.{Db, get_listing}
use agent_discovery_board.Listing.{Listing}
use agent_discovery_board.WalletAuth.{Action, Nonces, Request, verify_wallet_auth}
use agent_discovery_board.Board.Create.{valid_or_422}
use agent_discovery_board.Board.Change.{check_name}
use agent_discovery_board.Board.Monad.{
  State, Env, Run, resume, ◌>>=◌, ◌>>◌, raise_if, raise_limit, rate_limit_mutation, others_run,
  verify, found_or_404, get_or_404,
}
use agent_discovery_board.RateLimit.{check, Outcome, served, daily_limit, too_many}

unfoldable pub is_accepted : Env → Request → Nonces → Bool
is_accepted env q seen = elim (verify_wallet_auth env.lib env.max_age env.wall env.mono q seen).0 [
  | ok _ ↦ true
  | err _ ↦ false
  | crash ↦ false
]

-- No other request runs meanwhile.
abbrev pub IsQuiet : Env → Type 0
IsQuiet env = (n : ℕ) (db : Db) → env.between n db ≡ db

-- The tables and the nonces of `start`.
abbrev pub Same : State → State → Type 0
Same start st = (st.db ≡ start.db) × (st.nonces ≡ start.nonces)

module _ (start : State) where
  pub bind-db :
      {A B : Type 0} (m : Run A) (f : A → Run B) (st : State)
      → (m st).1.db ≡ start.db
      → ((a : A) → (m st).0 ≡ ok a → (f a (m st).1).1.db ≡ start.db)
      → ((m >>= f) st).1.db ≡ start.db
  unfolding ◌>>=◌
  bind-db {A} m f st d k = go (m st).0 refl
    where
      go : (r : Result A) → (m st).0 ≡ r → (resume f r (m st).1).1.db ≡ start.db
      go (ok a) e = k a e
      go (err x) e = d
      go crash e = d

  pub bind-Same :
      {A B : Type 0} (m : Run A) (f : A → Run B) (st : State)
      → Same start (m st).1
      → ((a : A) (st' : State) → (m st).0 ≡ ok a → Same start st' → (f a st').1.db ≡ start.db)
      → ((m >>= f) st).1.db ≡ start.db
  bind-Same m f st s k = bind-db m f st s.0 (λ a e. k a (m st).1 e s)

  pub raise_if-Same :
      (c : Bool) (e : ApiError) (st : State) → Same start st → Same start (raise_if c e st).1
  raise_if-Same true e st s = s
  raise_if-Same false e st s = s

  pub check_name-Same :
      (n : Option (Option String)) (t : Bool) (st : State)
      → Same start st
      → Same start (check_name n t st).1
  unfolding check_name
  check_name-Same none t st s = s
  check_name-Same (some none) t st s = s
  check_name-Same (some (some name)) t st s = raise_if-Same _ _ st s

  pub valid-Same :
      {A : Type 0} (o : Option A) (st : State) → Same start st → Same start (valid_or_422 o st).1
  valid-Same none st s = s
  valid-Same (some a) st s = s

  pub found-Same :
      (o : Option Listing) (st : State) → Same start st → Same start (found_or_404 o st).1
  found-Same none st s = s
  found-Same (some r) st s = s

  pub found-ok :
      (o : Option Listing) (st : State) (r : Listing) → (found_or_404 o st).0 ≡ ok r → o ≡ some r
  found-ok none st r e = absurd (ground arith)
  found-ok (some x) st r e = ground arith

  pub limit-Same : (out : Outcome) (st : State) → Same start st → Same start (raise_limit out st).1
  limit-Same served st s = s
  limit-Same (daily_limit n) st s = s
  limit-Same (too_many n) st s = s

  module _ (env : Env) (quiet : IsQuiet env) where
    pub mutation-Same : (st : State) → Same start st → Same start (rate_limit_mutation env st).1
    unfolding rate_limit_mutation
    mutation-Same st s =
        let (l, out) = check st.mutate_limiter env.client env.mono env.wall in
        limit-Same out (record st { mutate_limiter = l }) s

    pub others-Same : (n : ℕ) (st : State) → Same start st → Same start (others_run env n st).1
    others-Same n st (d, s) = (quiet n st.db ∙ d, s)

    -- A refused signature ends the handler.
    pub verify-Same :
        {B : Type 0} (f : Unit {0} → Run B) (a : Action) (id who : String) (body : Option Json)
        (st : State)
        → Same start st
        → is_accepted env
            (record {
              header = env.header;
              action = a;
              listing_id = id;
              submitted_by = who;
              body = body;
            })
            start.nonces
          ≡ false
        → ((verify env a id who body >>= f) st).1.db ≡ start.db
    unfolding verify is_accepted
    verify-Same f a id who body st (d, s) refused =
        bind-db (verify env a id who body) f st d (λ u e. absurd (ground arith))

    -- The steps before the row is read.
    pub read-Same :
        (k : Listing → Run Listing) (id : String) (st : State)
        → Same start st
        → ((r : Listing) (st' : State)
            → get_listing id start.db ≡ some r
            → Same start st'
            → (k r st').1.db ≡ start.db)
        → ((others_run env 0 >> (get_or_404 id >>= k)) st).1.db ≡ start.db
    unfolding get_or_404
    read-Same k id st s next = bind-Same (others_run env 0) _ st (others-Same 0 st s) (λ _ st1 _ s1.
        bind-Same (get_or_404 id) k st1 (found-Same (get_listing id st1.db) st1 s1) (λ r st2 e s2.
          next r st2 (ap (get_listing id) (sym s1.0) ∙ found-ok (get_listing id st1.db) st1 r e)
            s2))
