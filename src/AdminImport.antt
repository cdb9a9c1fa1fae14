-- ===== src/AdminImport.antt =====
-- app/api/routes/admin_import.py: POST /admin/import. A step keeps what was done before a failure.
-- Reading the table for a plan is one statement, and so are the counts and the writes of a sync.
mod Monad
pub mod Handler
pub mod Auth
pub mod Effects
pub mod Trail
use Prim.Native.Char.{code}
use Prim.Native.String
unfoldable pub use Monad.*
use agent_discovery_board.Prelude.{
  ℕ, ◌+◌, ◌-◌, ◌*◌, ◌/◌, String, Bool, true, false, not, ◌&&◌, ◌||◌, Option, none, some, List, [],
  ◌∷◌, ◌++◌, ◌==◌, ltb, leb, eqb, if◌then◌else◌, or_else, length, is_none, Json, null, bool, int,
  str, pos, lower, strip, str_len, all_chars,
}
use agent_discovery_board.Errors.{
  ApiError, Result, ok, err, crash, api_error, unauthorized, conflict, validation_error,
  body_too_large,
}
use agent_discovery_board.RateLimit.{RateLimiter, check}
use agent_discovery_board.Board.Monad.{raise_limit, limit_error}
use agent_discovery_board.Endpoint.{UrlLibrary}
use agent_discovery_board.Models.{ModelLibrary}
use agent_discovery_board.Store.{Db}
use agent_discovery_board.Imports.{SourceRecord}
use agent_discovery_board.ImportSync.{SyncPlan, plan_sync}
use agent_discovery_board.ImportSync.Apply.{SyncOutcome, apply_plan}
use agent_discovery_board.ImportSync.Records.{parse_records, board_template_base}
use agent_discovery_board.ImportSync.DryRun.{dry_run_counts}
use agent_discovery_board.ImportAuth.{key_matches, bearer_token, audit}
use agent_discovery_board.AdminImport.Monad.{
  ImportState, Run, pure, raise, escape, ◌>>=◌, ◌>>◌, note, limit,
}

-- What the handler reads of a request: headers, query parameters and the chunks of the body.
pub record Request : Type 0 where
  pub authorization : Option String
  pub client : Option String
  pub dry_run : Option String
  pub mark_missing : Option String
  pub source : Option String
  pub content_length : Option String
  pub chunks : List (List ℕ)

-- The libraries, the configuration, the clocks at the start and the end, and what other requests
-- do to the tables before each statement. `read_record` is `none` on an entry that is no object.
pub record Env : Type 0 where
  pub sha256_hex : String → String
  pub decode_utf8 : List ℕ → Option String
  pub loads : String → Option Json
  pub read_record : Json → Option SourceRecord
  pub models : ModelLibrary
  pub urls : UrlLibrary
  pub import_key : String
  pub max_body_bytes : ℕ
  pub service_base_url : Option String
  pub new_ids : ℕ → String
  pub now : ℕ
  pub wall : ℕ
  pub mono : ℕ
  pub ended : ℕ
  pub ts : String
  pub between : ℕ → Db → Db

unfoldable pub bool_param : Option String → Bool → Run Bool
bool_param none default = pure default
bool_param (some raw) default =
    let value = lower (strip raw) in
    if value == "true" || value == "1" || value == "yes"
    then pure true
    else if value == "false" || value == "0" || value == "no"
    then pure false
    else raise (api_error 422 validation_error)

abbrev pub too_large : ApiError
too_large = api_error 413 body_too_large

-- str.isdigit on a header, which is Latin-1: digits and the superscripts 1, 2 and 3.
abbrev is_superscript : ℕ → Bool
is_superscript c = eqb c 0xb2 || eqb c 0xb3 || eqb c 0xb9

abbrev is_ascii_digit : ℕ → Bool
is_ascii_digit c = leb b'0' c && leb c b'9'

abbrev read_number : ℕ → String → ℕ
read_number acc String.[] = acc
read_number acc (String.◌∷◌ c s) = read_number (acc * 10 + (code c - b'0')) s

-- `declared.isdigit() and int(declared) > ...`: `int` raises on a superscript, and on more than 4300
-- digits.
unfoldable pub check_declared : ℕ → Option String → Run (Unit {0})
check_declared max_bytes none = pure tt
check_declared max_bytes (some declared) =
    if declared == "" || not (all_chars (λ c. is_ascii_digit c || is_superscript c) declared)
    then pure tt
    else if not (all_chars is_ascii_digit declared) || ltb 4300 (str_len declared)
    then escape
    else if ltb max_bytes (read_number 0 declared)
    then raise too_large
    else pure tt

unfoldable pub read_chunks : ℕ → ℕ → List ℕ → List (List ℕ) → Run (List ℕ)
unfolding note
read_chunks max_bytes total body [] = note ("bytes", int (pos total)) >> pure body
read_chunks max_bytes total body (chunk ∷ chunks) =
    let total' = total + length chunk in
    let rest = read_chunks max_bytes total' (body ++ chunk) chunks in
    if ltb max_bytes total' then raise too_large else rest

unfoldable pub read_body : ℕ → Request → Run (List ℕ)
unfolding check_declared read_chunks
read_body max_bytes r =
    check_declared max_bytes r.content_length >> read_chunks max_bytes 0 [] r.chunks

-- A value of `Option`, or the error.
abbrev pub or_raise : {A : Type 0} → Option A → ApiError → Run A
or_raise none e = raise e
or_raise (some a) e = pure a

pub record ImportResult : Type 0 where
  pub dry_run : Bool
  pub sources : List String
  pub records : ℕ
  pub valid : ℕ
  pub added : ℕ
  pub updated : ℕ
  pub stale : ℕ
  pub rejected : ℕ
  pub skipped_do_not_import : ℕ
  pub claimed_content_preserved : ℕ
  pub duplicates_in_batch : ℕ
  pub mark_missing : Bool
  pub rejected_details : List ℕ
  pub rejected_details_omitted : ℕ

abbrev sent_source : Option String → Option String
sent_source raw = let value = strip (or_else raw "") in if value == "" then none else some value

abbrev json_source : Option String → Json
json_source none = null
json_source (some s) = str s

abbrev map_records : (Json → Option SourceRecord) → List Json → List (Option SourceRecord)
map_records read [] = []
map_records read (j ∷ js) = read j ∷ map_records read js
