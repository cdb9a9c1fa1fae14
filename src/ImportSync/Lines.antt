-- ===== src/ImportSync/Lines.antt =====
-- app/core/import_sync.py: `parse_records` on JSON Lines.
use Prim.Native.Char.{Char, code}
use Prim.Native.String
use text.Mathlib.TextLemmas.{cons-append, nil-append}
use agent_discovery_board.Prelude.{
  String, ◌≡◌, refl, ap, ◌∙◌, Bool, true, false, not, ◌&&◌, Option, none, some, List, [], ◌∷◌, map,
  arith, ◌==◌, eqb, starts_with, strip, strip_left, all_chars, All, Json,
}
use agent_discovery_board.ImportSync.Records.{is_break, split_lines, parse_lines, parse_records}

-- A text without a line break.
abbrev pub is_line : String → Bool
is_line = all_chars (λ c. not (is_break c) && not (eqb c 13))

-- The text is a line, and what stands after its break is split by itself.
pub split_lines-break :
    (line : String) (c : Char) (rest : String)
    → is_line line ≡ true
    → is_break (code c) ≡ true
    → split_lines (String.◌++◌ line (String.◌∷◌ c rest)) ≡ line ∷ split_lines rest
unfolding split_lines
split_lines-break String.[] c rest h b = rw (nil-append (String.◌∷◌ c rest)) (rw b refl)
split_lines-break (String.◌∷◌ d line) c rest h b =
    let inside : is_break (code d) ≡ false = ground arith in
    let no_return : eqb (code d) 13 ≡ false = ground arith in
    let ih = split_lines-break line c rest (ground arith) b in
    rw (cons-append d line (String.◌∷◌ c rest)) (rw (inside, no_return, ih) refl)

-- JSON Lines: each text on a line of its own.
abbrev pub to_lines : List String → String
to_lines [] = ""
to_lines (line ∷ lines) = String.◌++◌ line (String.◌∷◌ "\n" (to_lines lines))

-- A line that holds one record.
pub record IsRecord (loads : String → Option Json) (line : String × Json) : Type 0 where
  pub whole : is_line line.0 ≡ true
  pub filled : strip line.0 == "" ≡ false
  pub read : loads line.0 ≡ some line.1

abbrev pub texts : List (String × Json) → List String
texts = map (λ (l : String × Json). l.0)

abbrev pub values : List (String × Json) → List Json
values = map (λ (l : String × Json). l.1)

split-to_lines :
    (loads : String → Option Json) (lines : List (String × Json))
    → All (IsRecord loads) lines
    → split_lines (to_lines (texts lines)) ≡ texts lines
unfolding split_lines
split-to_lines loads [] h = refl
split-to_lines loads ((line, v) ∷ lines) (r, h) =
    split_lines-break line "\n" (to_lines (texts lines)) r.whole refl
    ∙ ap (λ l. line ∷ l) (split-to_lines loads lines h)

parse_lines-texts :
    (loads : String → Option Json) (lines : List (String × Json))
    → All (IsRecord loads) lines
    → parse_lines loads (texts lines) ≡ some (values lines)
unfolding parse_lines
parse_lines-texts loads [] h = refl
parse_lines-texts loads ((line, v) ∷ lines) (r, h) =
    rw (r.filled, r.read, parse_lines-texts loads lines h) refl

-- JSON Lines come back: a text with one record on each line, where none of the characters that
-- `splitlines` breaks at stands inside a line, parses to these records, unless it starts with "[".
pub parse_records-to_lines :
    (loads : String → Option Json) (lines : List (String × Json))
    → All (IsRecord loads) lines
    → starts_with (strip_left (to_lines (texts lines))) "[" ≡ false
    → parse_records loads (to_lines (texts lines)) ≡ some (values lines)
unfolding parse_records
parse_records-to_lines loads lines h plain =
    rw (plain, split-to_lines loads lines h) (parse_lines-texts loads lines h)

-- A record with one of those characters inside a string, such as U+2028, is cut there: the batch is
-- refused where the part before the character is no JSON by itself.
pub parse_records-inner_break :
    (loads : String → Option Json) (line rest : String) (c : Char)
    → is_line line ≡ true
    → is_break (code c) ≡ true
    → strip line == "" ≡ false
    → loads line ≡ none
    → starts_with (strip_left (String.◌++◌ line (String.◌∷◌ c rest))) "[" ≡ false
    → parse_records loads (String.◌++◌ line (String.◌∷◌ c rest)) ≡ none
unfolding parse_records parse_lines
parse_records-inner_break loads line rest c whole cuts filled unread plain =
    rw (plain, split_lines-break line c rest whole cuts, filled, unread) refl
