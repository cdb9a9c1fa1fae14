-- ===== src/Verifier.antt =====
-- app/core/verifier_info.py: the facts about the verification service. Fetching a document, the clock
-- and the cache table are arguments; `time.monotonic()` and the waits are whole microseconds.
mod Documents
pub mod History
pub mod Threads
unfoldable pub use Documents.*
use agent_discovery_board.Prelude.{
  ℕ, ◌+◌, String, Bool, true, false, not, ◌&&◌, ◌||◌, Option, none, some, List, [], ◌∷◌, Json,
  JsonLibrary, lookup, put_at, is_none, is_some, leb, le_str, any, if◌then◌else◌,
}
use agent_discovery_board.Verifier.Documents.{parse_payment, parse_free_path}

-- An entry of `_sections`; `fetched_at` is an ISO time.
pub record Section : Type 0 where
  pub facts : Json
  pub fetched_at : Option String
  pub live : Bool

abbrev pub Sections : Type 0
Sections = List (String × Section)

-- What `_save_to_db` writes of a section, and `_load_from_db` reads.
pub record Stored : Type 0 where
  pub facts : Json
  pub fetched_at : Option String

-- The variables of the module.
pub record Verifier : Type 0 where
  pub sections : Sections
  pub loaded_from_db : Bool
  pub refreshing : Bool
  pub last_attempt : Option ℕ
  pub last_attempt_ok : Bool

-- The module when it has been imported.
abbrev pub fresh : Verifier
fresh = record {
  sections = [];
  loaded_from_db = false;
  refreshing = false;
  last_attempt = none;
  last_attempt_ok = true;
}

-- The loop of `_load_from_db`: a section that is known already is kept.
unfoldable pub load_sections : List (String × Stored) → Sections → Sections
unfolding lookup put_at
load_sections [] sections = sections
load_sections ((name, s) ∷ stored) sections = load_sections stored (
    if is_none (lookup name sections)
    then put_at name (record { facts = s.facts; fetched_at = s.fetched_at; live = false }) sections
    else sections)

-- `stored` is what the table holds, and `none` where reading it raises or finds no row.
unfoldable pub load_from_db : Option (List (String × Stored)) → Verifier → Verifier
unfolding load_sections
load_from_db none v = record v { loaded_from_db = true }
load_from_db (some stored) v = record v {
  loaded_from_db = true;
  sections = load_sections stored v.sections;
}

unfoldable pub to_stored : Sections → List (String × Stored)
to_stored [] = []
to_stored ((name, s) ∷ sections) =
    (name, record { facts = s.facts; fetched_at = s.fetched_at }) ∷ to_stored sections

-- A section whose document could not be fetched or parsed keeps its facts.
unfoldable pub mark_stale : String → Sections → Sections
unfolding lookup put_at
mark_stale name sections = elim (lookup name sections) [
  | none ↦ sections
  | some s ↦ put_at name (record s { live = false }) sections
]

-- One turn of the loop of `refresh`.
unfoldable pub refresh_section : String → Option Json → String → Sections → Sections
unfolding mark_stale put_at
refresh_section name none now_iso sections = mark_stale name sections
refresh_section name (some facts) now_iso sections =
    put_at name (record { facts = facts; fetched_at = some now_iso; live = true }) sections

-- One refresh: what `_fetch_json` gives for each document (`none` where it raises), the time at each
-- section and the clock at the end.
pub record Attempt : Type 0 where
  pub x402 : Option Json
  pub agent_card : Option Json
  pub paid_at : String
  pub free_at : String
  pub ended : ℕ

abbrev pub parsed : (Json → Option Json) → Option Json → Option Json
parsed parse none = none
parsed parse (some document) = parse document

abbrev pub payment_of : JsonLibrary → Attempt → Option Json
payment_of lib a = parsed (parse_payment lib) a.x402

abbrev pub free_path_of : JsonLibrary → Attempt → Option Json
free_path_of lib a = parsed (parse_free_path lib) a.agent_card

abbrev pub succeeded : JsonLibrary → Attempt → Bool
succeeded lib a = is_some (payment_of lib a) && is_some (free_path_of lib a)

unfoldable pub refresh_sections : JsonLibrary → Attempt → Sections → Sections
unfolding refresh_section
refresh_sections lib a sections =
    refresh_section "free_path" (free_path_of lib a) a.free_at
      (refresh_section "payment" (payment_of lib a) a.paid_at sections)

-- `refresh`, with what is written to the cache table, if anything.
unfoldable pub refresh :
    JsonLibrary
    → Option (List (String × Stored))
    → Attempt
    → Verifier
    → Verifier × Option (List (String × Stored))
unfolding load_from_db refresh_sections to_stored
refresh lib stored a v =
    let v' = if v.loaded_from_db then v else load_from_db stored v in
    let sections = refresh_sections lib a v'.sections in
    let is_ok = succeeded lib a in
    (
      record v' {
        sections = sections;
        last_attempt = some a.ended;
        last_attempt_ok = is_ok;
        refreshing = false;
      },
      if is_ok || any (λ (e : String × Section). e.1.live) sections
          then some (to_stored sections)
          else none,
    )

-- VERIFIER_INFO_TTL_SECONDS and FAILURE_BACKOFF_SECONDS
pub record Waits : Type 0 where
  pub ttl : ℕ
  pub backoff : ℕ

-- now - t >= wait
unfoldable pub refresh_due : Waits → ℕ → Verifier → Bool
refresh_due w now v = elim v.last_attempt [
  | none ↦ true
  | some t ↦ leb (t + (if v.last_attempt_ok then w.ttl else w.backoff)) now
]

-- Under the lock: `true` where the caller starts a thread.
unfoldable pub start : Bool → Verifier → Verifier × Bool
start enabled v =
    if enabled && not v.refreshing then (record v { refreshing = true }, true) else (v, false)

unfoldable pub start_if_due : Waits → Bool → ℕ → Verifier → Verifier × Bool
unfolding refresh_due start
start_if_due w enabled now v = start (enabled && refresh_due w now v) v

-- The handler of `_refresh_in_background`, where `refresh` raises.
unfoldable pub refresh_crashed : Verifier → Verifier
refresh_crashed v = record v { refreshing = false }

pub data Status : Type 0 where
  live last_known partial unavailable : Status

pub record Snapshot : Type 0 where
  pub payment : Option Json
  pub free_path : Option Json
  pub status : Status
  pub fetched_at : Option String

abbrev facts_of : Option Section → Option Json
facts_of none = none
facts_of (some s) = some s.facts

abbrev time_of : Option Section → Option String
time_of none = none
time_of (some s) = s.fetched_at

unfoldable pub status_of : Option Section → Option Section → Status
status_of none none = unavailable
status_of none (some g) = partial
status_of (some p) none = partial
status_of (some p) (some g) = if p.live && g.live then live else last_known

-- The first of the sorted times.
abbrev earlier : Option String → Option String → Option String
earlier none t = t
earlier (some s) none = some s
earlier (some s) (some t) = if le_str s t then some s else some t

-- What `snapshot` returns, after it may have started a thread.
unfoldable pub snapshot : Verifier → Snapshot
unfolding status_of lookup
snapshot v =
    let p = lookup "payment" v.sections in
    let g = lookup "free_path" v.sections in
    record {
      payment = facts_of p;
      free_path = facts_of g;
      status = status_of p g;
      fetched_at = earlier (time_of p) (time_of g);
    }
