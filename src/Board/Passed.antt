-- ===== src/Board/Passed.antt =====
-- app/api/routes/listings.py: a handler that returned has passed each of its steps.
use agent_discovery_board.Prelude.{◌≡◌, refl, Bool, true, false, arith}
use agent_discovery_board.Errors.{ApiError, Result, ok, err, crash}
use agent_discovery_board.Board.Monad.{State, Run, resume, ◌>>=◌, raise_if}

-- The first step's value and state, and the run of the rest on them.
pub record Passed {A B : Type 0} (m : Run A) (f : A → Run B) (st : State) (b : B) (st' : State)
    : Type 0 where
  pub value : A
  pub middle : State
  pub first : m st ≡ (ok value, middle)
  pub rest : f value middle ≡ (ok b, st')

pub bind-Passed :
    {A B : Type 0} (m : Run A) (f : A → Run B) (st st' : State) (b : B)
    → (m >>= f) st ≡ (ok b, st')
    → Passed m f st b st'
unfolding ◌>>=◌
bind-Passed {A} {B} m f st st' b e = go (m st).0 (m st).1 refl e
  where
    go :
        (r : Result A) (mid : State)
        → m st ≡ (r, mid)
        → resume f r mid ≡ (ok b, st')
        → Passed m f st b st'
    go (ok a) mid eq rest = record { value = a; middle = mid; first = eq; rest = rest }
    go (err x) mid eq rest = absurd (ground arith)
    go crash mid eq rest = absurd (ground arith)

-- A guard that was passed is false, and changes nothing.
pub raise_if-Passed :
    (c : Bool) (e : ApiError) (st st' : State) (u : Unit {0})
    → raise_if c e st ≡ (ok u, st')
    → (c ≡ false) × (st' ≡ st)
raise_if-Passed true e st st' u p = absurd (ground arith)
raise_if-Passed false e st st' u p = (refl, ground arith)
