-- ===== src/Prelude/JsonRead.antt =====
-- How Python reads a parsed JSON value that may have any type.
use Prim.Native.String.{String}
use mathlib.Core.Bool.{Bool, true, false, not, ◌||◌}
use Prim.Native.Nat.{zero, suc}
use mathlib.Core.Option.{Option, none, some}
use text.Mathlib.Text.{◌==◌}
use agent_discovery_board.Prelude.Tests.{or_else}
use agent_discovery_board.Prelude.JsonValue.{
  pos, negsuc, Float, Json, null, bool, int, float, str, arr, obj, Items, nil, cons, Fields, end,
  field, get_field,
}

-- `str` of a value, and `bool` of a float.
pub record JsonLibrary : Type 0 where
  pub show : Json → String
  pub float_is_true : Float → Bool

-- d.get(key, default)
abbrev pub get_or : String → Json → Fields → Json
get_or key default fs = or_else (get_field key fs) default

-- bool(value)
unfoldable pub is_true : JsonLibrary → Json → Bool
is_true lib null = false
is_true lib (bool b) = b
is_true lib (int (pos zero)) = false
is_true lib (int (pos (suc n))) = true
is_true lib (int (negsuc n)) = true
is_true lib (float x) = lib.float_is_true x
is_true lib (str s) = not (s == "")
is_true lib (arr nil) = false
is_true lib (arr (cons x xs)) = true
is_true lib (obj end) = false
is_true lib (obj (field k v fs)) = true

-- What `value.get` needs; `none` is an AttributeError.
abbrev pub as_object : Json → Option Fields
as_object (obj fs) = some fs
as_object _ = none

abbrev pub chars_of : String → Items
chars_of String.[] = nil
chars_of (String.◌∷◌ c s) = cons (str (String.◌∷◌ c "")) (chars_of s)

abbrev pub keys_of : Fields → Items
keys_of end = nil
keys_of (field k v fs) = cons (str k) (keys_of fs)

-- What `for x in value` runs over; `none` is a TypeError.
unfoldable pub iterate : Json → Option Items
iterate (arr xs) = some xs
iterate (obj fs) = some (keys_of fs)
iterate (str s) = some (chars_of s)
iterate _ = none

-- s.endswith(t)
unfoldable pub ends_with : String → String → Bool
ends_with String.[] t = t == ""
ends_with (String.◌∷◌ c s) t = String.◌∷◌ c s == t || ends_with s t
