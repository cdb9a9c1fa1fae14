-- ===== src/AdminScript.antt =====
-- scripts/admin_update_listing.py: an operator's change, deletion or purge, past the signatures. What
-- argparse reads is a record; what is printed is not modelled.
pub mod Fields
pub mod Commands
use agent_discovery_board.Prelude.{
  ℕ, String, Bool, true, false, not, ◌&&◌, Option, none, some, List, [], ◌∷◌, ◌++◌, ◌==◌, all, any,
  if◌then◌else◌, is_in, ℤ, Json, str, null,
}
use agent_discovery_board.Listing.{Listing}
use agent_discovery_board.Models.{ModelLibrary, ListingCreate}
use agent_discovery_board.Models.Shapes.{split_at}
use agent_discovery_board.Endpoint.{UrlLibrary}
use agent_discovery_board.Store.{Db}

pub record Args : Type 0 where
  pub id : Option String
  pub expects : List String
  pub sets : List String
  pub unset : List String
  pub delete : Bool
  pub purge_test : Bool
  -- in microseconds
  pub older_than : Option ℤ
  pub limit : ℤ
  pub apply : Bool
  pub yes : Bool

-- A line of the log file: the action, the listing, the rows that are gone, and the changed fields.
pub record Entry : Type 0 where
  pub action : String
  pub listing_id : Option String
  pub deleted_rows : List Listing
  pub changed : List String

pub record ScriptState : Type 0 where
  pub db : Db
  pub log : List Entry

-- An AdminError, with its exit code, or an exception that `main` does not catch.
pub data Res (A : Type 0) : Type 0 where
  done : A → Res A
  refused : ℕ → Res A
  unhandled : Res A

abbrev pub Run : Type 0 → Type 0
Run A = ScriptState → Res A × ScriptState

module _ {A : Type 0} where
  abbrev pub pure : A → Run A
  pure a st = (done a, st)

  abbrev pub refuse : ℕ → Run A
  refuse code st = (refused code, st)

  abbrev pub escape : Run A
  escape st = (unhandled, st)

abbrev pub resume : {A B : Type 0} → (A → Run B) → Res A → Run B
resume f (done a) = f a
resume f (refused code) = refuse code
resume f unhandled = escape

infixl 5 ◌>>=◌ ◌>>◌
unfoldable pub ◌>>=◌ : {A B : Type 0} → Run A → (A → Run B) → Run B
◌>>=◌ m f st = let (r, st') = m st in resume f r st'

abbrev pub ◌>>◌ : {A B : Type 0} → Run A → Run B → Run B
m >> k = m >>= λ _. k

abbrev pub refuse_if : Bool → ℕ → Run (Unit {0})
refuse_if c code = if c then refuse code else pure tt

abbrev pub exit_usage : ℕ
exit_usage = 1

abbrev pub exit_guard : ℕ
exit_guard = 2

-- The surroundings of a run: `json.loads`, Python's `!=` and PostgreSQL's IS NOT DISTINCT FROM on a column and
-- a parameter, whether psycopg adapts a parameter, what pydantic reads of a candidate (before the
-- validators of the model), the libraries of the models, the clock, TEST_LISTING_TTL_HOURS, what the
-- operator types, whether DATABASE_URL is set, and what others do before the n-th statement.
pub record ScriptEnv : Type 0 where
  pub loads : String → Option Json
  pub differs : Json → Json → Bool
  pub not_distinct : Json → Json → Bool
  pub adapts : Json → Bool
  pub read_candidate : List (String × Json) → Option ListingCreate
  pub models : ModelLibrary
  pub urls : UrlLibrary
  pub now : ℕ
  pub test_ttl : ℕ
  pub typed : String
  pub configured : Bool
  pub between : ℕ → Db → Db

-- EDITABLE_FIELDS, NULLABLE_FIELDS and JSON_FIELDS
abbrev pub editable_fields : List String
editable_fields =
    "name" ∷ "description" ∷ "listing_type" ∷ "task_categories" ∷ "endpoint_url" ∷ "payment_wallet"
    ∷ "pricing_model" ∷ "pricing_amount" ∷ "payment_options" ∷ "erc8004_identity"
    ∷ "verification_agent_id" ∷ "output_schema" ∷ "verification" ∷ "template_url" ∷ "submitted_by"
    ∷ "status" ∷ []

abbrev nullable_fields : List String
nullable_fields =
    "pricing_model" ∷ "pricing_amount" ∷ "erc8004_identity" ∷ "verification_agent_id"
    ∷ "output_schema" ∷ "verification" ∷ "template_url" ∷ []

abbrev json_fields : List String
json_fields = "task_categories" ∷ "payment_options" ∷ "output_schema" ∷ "verification" ∷ []

abbrev pub Values : Type 0
Values = List (String × Json)

abbrev has_key : String → Values → Bool
has_key field values = any (λ (e : String × Json). e.0 == field) values

-- `_parse_pairs`; `none` is an AdminError.
module _ (loads : String → Option Json) where
  abbrev read_value : String → String → Option Json
  read_value field raw = if is_in field json_fields then loads raw else some (str raw)

  abbrev add_pair : String → Option String → Values → Option Values
  add_pair field none out = none
  add_pair field (some raw) out =
      if not (is_in field editable_fields)
      then none
      else if has_key field out
      then none
      else elim (read_value field raw) [ none ↦ none | some v ↦ some (out ++ (field, v) ∷ []) ]

  unfoldable pub parse_pairs : List String → Values → Option Values
  unfolding split_at
  parse_pairs [] out = some out
  parse_pairs (pair ∷ pairs) out =
      let (field, raw) = split_at b'=' pair in
      elim (add_pair field raw out) [ none ↦ none | some out' ↦ parse_pairs pairs out' ]

-- The loop over --unset.
unfoldable pub add_unset : List String → Values → Option Values
add_unset [] changes = some changes
add_unset (field ∷ fields) changes =
    let rest = add_unset fields (changes ++ (field, null) ∷ []) in
    if not (is_in field nullable_fields) then none else if has_key field changes then none else rest
