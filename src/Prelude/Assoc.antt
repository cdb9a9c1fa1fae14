-- ===== src/Prelude/Assoc.antt =====
-- A dict with string keys, by the order of insertion.
use Prim.Native.String.{String}
use mathlib.Core.Path.{◌≡◌, refl}
use mathlib.Core.Option.{Option, none, some}
use mathlib.Core.List.{List, [], ◌∷◌}
use native.Mathlib.Omega.{arith}
use text.Mathlib.Text.{◌==◌}
use text.Mathlib.TextEquality.{eq_iff}
use agent_discovery_board.Prelude.Tests.{if◌then◌else◌}

module _ {ℓ} {V : Type ℓ} where
  -- d.get(k)
  unfoldable pub lookup : String → List (String × V) → Option V
  lookup k [] = none
  lookup k ((j, v) ∷ d) = if j == k then some v else lookup k d

  -- d[k] = v
  unfoldable pub put_at : String → V → List (String × V) → List (String × V)
  put_at k v [] = (k, v) ∷ []
  put_at k v ((j, w) ∷ d) = if j == k then (k, v) ∷ d else (j, w) ∷ put_at k v d

  pub lookup-put_at :
      (k j : String) (v : V) (d : List (String × V))
      → lookup j (put_at k v d) ≡ (if k == j then some v else lookup j d)
  unfolding lookup put_at
  lookup-put_at k j v [] = refl
  lookup-put_at k j v ((i, w) ∷ d) =
      ground (arith, eq_iff k j, eq_iff i k, eq_iff i j, lookup-put_at k j v d)
