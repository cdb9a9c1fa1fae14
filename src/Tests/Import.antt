-- ===== src/Tests/Import.antt =====
-- The import endpoint and its batches at concrete requests.
use agent_discovery_board.Prelude.{
  String, ◌≡◌, refl, true, false, none, some, List, [], ◌∷◌, ◌==◌, if◌then◌else◌, Json, obj, end,
  strip, strip_left, strip_right, lower,
}
use agent_discovery_board.ImportSync.{plan_sync, validate_all}
use agent_discovery_board.ImportSync.Apply.{apply_plan}
use agent_discovery_board.ImportSync.Empty.{empty_batch_writes_nothing}
use agent_discovery_board.ImportSync.Records.{parse_records}
use agent_discovery_board.ImportSync.Lines.{to_lines, texts, parse_records-to_lines}
use agent_discovery_board.ImportAuth.{key_matches, bearer_token, partition_space}
use agent_discovery_board.AdminImport.{ImportState, Request, Env, bool_param}
use agent_discovery_board.AdminImport.Handler.{import_listings}
use agent_discovery_board.AdminImport.Trail.{IsAudited, import-IsAudited}
use agent_discovery_board.AdminImport.Auth.{
  IsRefused, unauthorized-IsRefused, dry_run_writes_nothing,
}
use agent_discovery_board.Tests.Data.{urls, models, tables, limiter}

abbrev env : Env
env = record {
  sha256_hex = λ s. s;
  decode_utf8 = λ b. some "{}";
  loads = λ s. if s == "{}" then some (obj end) else none;
  read_record = λ j. none;
  models = models;
  urls = urls;
  import_key = "secret";
  max_body_bytes = 100;
  service_base_url = none;
  new_ids = λ n. "id";
  now = 900;
  wall = 7;
  mono = 7;
  ended = 2007;
  ts = "2026";
  between = λ n db. db;
}

abbrev asked : Request
asked = record {
  authorization = some "Bearer wrong";
  client = some "10.0.0.1";
  dry_run = none;
  mark_missing = none;
  source = none;
  content_length = none;
  chunks = (1 ∷ 2 ∷ []) ∷ [];
}

abbrev idle : ImportState
idle = record {
  db = tables;
  auth_failure_limiter = limiter;
  import_limiter = limiter;
  running = false;
  info = [];
  audit_log = [];
}

unauthorized-IsRefused_example :
    IsRefused idle (import_listings env asked idle).0 (import_listings env asked idle).1
unfolding key_matches bearer_token partition_space strip strip_left strip_right lower
unauthorized-IsRefused_example = unauthorized-IsRefused env asked idle refl

dry_run_writes_nothing_example :
    (import_listings env (record asked { authorization = some "Bearer secret" }) idle).1.db ≡ tables
unfolding bool_param
dry_run_writes_nothing_example =
    dry_run_writes_nothing env (record asked { authorization = some "Bearer secret" }) idle
      (λ s e. cc) (λ n db. refl)

import-IsAudited_example :
    let (out, st') = import_listings env asked idle in
    (st'.running ≡ false)
    × (entry : List (String × Json)) × (st'.audit_log ≡ entry ∷ [])
    × IsAudited env asked out entry
import-IsAudited_example = import-IsAudited env asked idle

empty_batch_writes_nothing_example :
    apply_plan urls
      (plan_sync urls models (λ n. "id") (some "feed") 900 false true (none ∷ []) tables)
      900
      none
      tables
    ≡ (some (record { inserted_rows = []; updated_rows = []; newly_missing = [] }), tables)
unfolding validate_all
empty_batch_writes_nothing_example =
    empty_batch_writes_nothing urls models (λ n. "id") (some "feed") none 900 true (none ∷ [])
      tables tables refl

abbrev batch : List (String × Json)
batch = ("{}", obj end) ∷ ("{}", obj end) ∷ []

parse_records-to_lines_example :
    parse_records env.loads (to_lines (texts batch)) ≡ some (obj end ∷ obj end ∷ [])
unfolding strip strip_left strip_right
parse_records-to_lines_example =
    parse_records-to_lines env.loads batch
      (
        record { whole = refl; filled = refl; read = refl },
        (record { whole = refl; filled = refl; read = refl }, tt),
      )
      refl
