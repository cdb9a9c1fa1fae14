-- ===== src/ImportSync/Records.antt =====
-- app/core/import_sync.py: `parse_records`, the records of a batch, and the board's own URL.
use Prim.Native.Char.{Char, code}
use agent_discovery_board.Prelude.{
  ℕ, String, Bool, false, ◌&&◌, ◌||◌, Option, none, some, List, [], ◌∷◌, ◌==◌, eqb, leb,
  if◌then◌else◌, or_else, starts_with, strip, strip_left, Json, arr, Items, nil, cons,
}
use agent_discovery_board.Endpoint.{strip_end}

-- The characters, beside a carriage return, that `str.splitlines` ends a line at.
abbrev pub is_break : ℕ → Bool
is_break c =
    (leb 10 c && leb c 12) || (leb 28 c && leb c 30) || eqb c 0x85 || eqb c 0x2028 || eqb c 0x2029

abbrev pub starts_feed : String → Bool
starts_feed String.[] = false
starts_feed (String.◌∷◌ c s) = eqb (code c) 10

abbrev pub extend : Char → List String → List String
extend c [] = String.◌∷◌ c "" ∷ []
extend c (line ∷ lines) = String.◌∷◌ c line ∷ lines

-- text.splitlines(): the lines, where a last line that is empty is none. A carriage return ends a
-- line, with a line feed that follows it.
unfoldable pub split_lines : String → List String
split_lines String.[] = []
split_lines (String.◌∷◌ c s) =
    let rest = split_lines s in
    if is_break (code c)
    then "" ∷ rest
    else if eqb (code c) 13
    then (if starts_feed s then rest else "" ∷ rest)
    else extend c rest

abbrev items_list : Items → List Json
items_list nil = []
items_list (cons x xs) = x ∷ items_list xs

-- `json.loads`; `none` is a JSONDecodeError.
module _ (loads : String → Option Json) where
  unfoldable pub parse_lines : List String → Option (List Json)
  parse_lines [] = some []
  parse_lines (line ∷ lines) =
      let rest = parse_lines lines in
      if strip line == "" then rest else elim (loads line) [
        | none ↦ none
        | some v ↦ elim rest [ none ↦ none | some vs ↦ some (v ∷ vs) ]
      ]

  abbrev as_records : Option Json → Option (List Json)
  as_records (some (arr xs)) = some (items_list xs)
  as_records _ = none

  -- `none` is an ImportInputError.
  unfoldable pub parse_records : String → Option (List Json)
  unfolding parse_lines split_lines
  parse_records text =
      if starts_with (strip_left text) "["
      then as_records (loads text)
      else parse_lines (split_lines text)

-- `board_template_base`, on the value of SERVICE_BASE_URL
unfoldable pub board_template_base : Option String → Option String
board_template_base variable =
    let value = strip_end b'/' (strip (or_else variable "")) in
    if value == "" then none else some value
