-- ===== src/Prelude/JsonValue.antt =====
-- Parsed JSON, as `json.loads` returns it: integers, floats with what `int` makes of them, objects
-- as the list of their fields with distinct keys.
use Prim.Native.Nat.{ℕ, ◌+◌, ◌-◌}
use Prim.Native.String.{String}
use mathlib.Core.Bool.{Bool}
use mathlib.Core.Option.{Option, none, some}
use text.Mathlib.Text.{◌==◌}
use agent_discovery_board.Prelude.Tests.{if◌then◌else◌}

-- `negsuc n` is -(n + 1).
pub data ℤ : Type 0 where
  pos : ℕ → ℤ
  negsuc : ℕ → ℤ

-- abs(n - z)
abbrev pub distance : ℕ → ℤ → ℕ
distance n (pos m) = (n - m) + (m - n)
distance n (negsuc m) = n + m + 1

-- A float by its integral part; `json.loads` also accepts NaN, Infinity and -Infinity.
pub data Float : Type 0 where
  finite : ℤ → Float
  nan infinite : Float

mutual
  pub data Json : Type 0 where
    null : Json
    bool : Bool → Json
    int : ℤ → Json
    float : Float → Json
    str : String → Json
    arr : Items → Json
    obj : Fields → Json

  pub data Items : Type 0 where
    nil : Items
    cons : Json → Items → Items

  pub data Fields : Type 0 where
    end : Fields
    field : String → Json → Fields → Fields

-- d.get(key), and d[key] where `none` is a KeyError
unfoldable pub get_field : String → Fields → Option Json
get_field key end = none
get_field key (field k v rest) = if k == key then some v else get_field key rest
