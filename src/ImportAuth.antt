-- ===== src/ImportAuth.antt =====
-- app/core/import_auth.py: the key of POST /admin/import, and its audit line. `sha256_hex` stands for
-- the digest of a text's UTF-8 bytes.
use Prim.Native.Char.{code}
use agent_discovery_board.Prelude.{
  String, Bool, true, false, not, Option, none, some, List, [], ◌∷◌, ◌==◌, eqb, if◌then◌else◌,
  or_else, lower, strip, Json, null, str, ℕ, zero, suc, lookup,
}

-- `_load_key`: `none` is the RuntimeError that stops the import of the module.
unfoldable pub load_key : Option String → Option String
load_key variable = let key = strip (or_else variable "") in if key == "" then none else some key

unfoldable pub key_matches : (String → String) → String → Option String → Bool
key_matches sha256_hex key none = false
key_matches sha256_hex key (some supplied) =
    if supplied == "" then false else sha256_hex (strip supplied) == sha256_hex key

-- s.partition(" "), without the separator
unfoldable pub partition_space : String → String × String
partition_space String.[] = ("", "")
partition_space (String.◌∷◌ c s) =
    let (head, tail) = partition_space s in
    if eqb (code c) b' ' then ("", s) else (String.◌∷◌ c head, tail)

unfoldable pub bearer_token : Option String → Option String
unfolding partition_space
bearer_token none = none
bearer_token (some header) =
    let (scheme, token) = partition_space (strip header) in
    if header == ""
    then none
    else if not (lower scheme == "bearer")
    then none
    else if strip token == ""
    then none
    else some (strip token)

-- `_AUDIT_FIELDS`
abbrev pub audit_fields : List String
audit_fields =
    "outcome" ∷ "status" ∷ "dry_run" ∷ "source" ∷ "client" ∷ "bytes" ∷ "records" ∷ "valid" ∷ "added"
    ∷ "updated" ∷ "stale" ∷ "rejected" ∷ "skipped_do_not_import" ∷ "claimed_content_preserved"
    ∷ "mark_missing" ∷ "duration_ms" ∷ []

-- _SOURCE_LOG_MAX
abbrev pub source_log_max : ℕ
source_log_max = 100

-- s[:n]
abbrev pub str_take : ℕ → String → String
str_take zero s = ""
str_take (suc n) String.[] = ""
str_take (suc n) (String.◌∷◌ c s) = String.◌∷◌ c (str_take n s)

-- The value that is logged: a source is cut, everything else is as it is.
abbrev pub logged_value : String → Json → Json
logged_value name (str s) = if name == "source" then str (str_take source_log_max s) else str s
logged_value name v = v

abbrev pub is_null : Json → Bool
is_null null = true
is_null _ = false

abbrev pub add_field : String → Option Json → List (String × Json) → List (String × Json)
add_field name none entry = entry
add_field name (some v) entry = if is_null v then entry else (name, logged_value name v) ∷ entry

unfoldable pub pick_fields : List String → List (String × Json) → List (String × Json)
unfolding lookup
pick_fields [] fields = []
pick_fields (name ∷ names) fields = add_field name (lookup name fields) (pick_fields names fields)

-- The entry that `audit` writes, at the time `ts`. A source is a text or None.
unfoldable pub audit : String → List (String × Json) → List (String × Json)
unfolding pick_fields
audit ts fields = ("event", str "admin_import") ∷ ("ts", str ts) ∷ pick_fields audit_fields fields
