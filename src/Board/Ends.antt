-- ===== src/Board/Ends.antt =====
-- How the steps of the handlers end: as values, as errors, or as exceptions for a reason.
use agent_discovery_board.Prelude.{Bool, true, false}
use agent_discovery_board.Errors.{ApiError, Result, ok, err, crash}
use agent_discovery_board.Board.Monad.{State, Run, resume, ◌>>=◌, ◌>>◌, raise_if}

-- How a run may end: with a value of which P holds, with an ApiError, or, only if Q holds, with another
-- exception.
abbrev pub EndsAt : {A : Type 0} → (A → Type 0) → Type 0 → Result A → Type 0
EndsAt P Q (ok a) = P a
EndsAt P Q (err e) = Unit
EndsAt P Q crash = Q

abbrev pub Ends : {A : Type 0} → (A → Type 0) → Type 0 → Run A → Type 0
Ends P Q m = (st : State) → EndsAt P Q (m st).0

abbrev pub Any : {A : Type 0} → A → Type 0
Any a = Unit

module _ (Q : Type 0) where
  pub bind-Ends :
      {A B : Type 0} (P : A → Type 0) (R : B → Type 0) (m : Run A) (f : A → Run B)
      → Ends P Q m
      → ((a : A) → P a → Ends R Q (f a))
      → Ends R Q (m >>= f)
  unfolding ◌>>=◌
  bind-Ends {A} {B} P R m f hm hf st = go (m st).0 (hm st)
    where
      go : (r : Result A) → EndsAt P Q r → EndsAt R Q (resume f r (m st).1).0
      go (ok a) h = hf a h (m st).1
      go (err x) h = tt
      go crash h = h

  pub raise_if-Ends : (c : Bool) (e : ApiError) → Ends Any Q (raise_if c e)
  raise_if-Ends true e st = tt
  raise_if-Ends false e st = tt

  pub raise_ifs-Ends :
      {A : Type 0} (m : Run A) (c : Bool) (e : ApiError)
      → Ends Any Q m
      → Ends Any Q (m >> raise_if c e)
  raise_ifs-Ends m c e h = bind-Ends Any Any m _ h (λ _ _. raise_if-Ends c e)
