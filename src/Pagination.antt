-- ===== src/Pagination.antt =====
-- app/core/pagination.py: the cursors of GET /listings and the search, and the check that a cursor is of
-- the kind, and of the query, that it comes back with.
pub mod Binding
use Prim.Native.String
use Prim.Native.Nat.{◌^◌}
use agent_discovery_board.Prelude.{
  ℕ, zero, suc, ◌+◌, ◌-◌, ◌*◌, ◌/◌, ◌%◌, ◌≤◌, ◌<◌, min, max, String, ◌≡◌, refl, sym, ap, ◌∙◌, ◌≢◌,
  ◌↔◌, ◌⊎◌, inl, inr, Bool, true, false, not, ◌&&◌, ◌||◌, Option, none, some, List, [], ◌∷◌, ◌++◌,
  map, arith, ◌==◌, eq_iff, eq_refl, ltb, leb, eqb, if◌then◌else◌, tests, Bool-cases, Option-cases,
  is_none, is_some, or_else, length, take, drop, keep, any, all, find, length-append,
  length-keep-le, find_sound, find-none, All, str_len, all_chars, any_char, starts_with, is_in,
  le_str, lower, strip, ℤ, pos, negsuc, distance, Float, finite, nan, infinite, Json, null, bool,
  int, float, str, arr, obj, Items, Fields, get_field,
}
use agent_discovery_board.Errors.{
  ErrorCode, invalid_cursor, ApiError, Result, ok, err, crash, api_error,
}
use agent_discovery_board.WalletAuth.{Parsed, parsed, malformed, overflow}
use agent_discovery_board.Prelude.{field, end}

-- A rank or a similarity is kept as the JSON number or text that `float` reads.
pub data AnyCursor : Type 0 where
  activity_cursor : ℕ → String → AnyCursor
  rank_cursor similarity_cursor : Json → String → String → AnyCursor

-- From the standard library: `json.dumps` and URL-safe base64 and back (`none` where decoding raises),
-- `isoformat` and `fromisoformat` with whether the time has a zone, SHA-256 in hexadecimal, whether
-- `float` reads a text, and `str` on a value that is no text.
pub record CursorLibrary : Type 0 where
  pub encode : Json → String
  pub decode : String → Option Json
  pub isoformat : ℕ → String
  pub fromisoformat : String → Option (ℕ × Bool)
  pub sha256_hex : String → String
  pub reads_float : String → Bool
  pub show : Json → String

abbrev take_chars : ℕ → String → String
take_chars zero s = ""
take_chars (suc n) String.[] = ""
take_chars (suc n) (String.◌∷◌ c s) = String.◌∷◌ c (take_chars n s)

-- An integer from this one on is too large for a float.
abbrev float_limit : ℕ
float_limit = 2 ^ 1024 - 2 ^ 970

abbrev magnitude : ℤ → ℕ
magnitude (pos n) = n
magnitude (negsuc n) = suc n

abbrev pub invalid {ℓ} : {A : Type ℓ} → Result A
invalid = err (api_error 422 invalid_cursor)

-- The length that an id in a cursor has.
unfoldable pub is_cursor_id : String → Bool
is_cursor_id s = leb 1 (str_len s) && leb (str_len s) 64

module _ (lib : CursorLibrary) where
  unfoldable pub query_fingerprint : String → String
  query_fingerprint q = take_chars 16 (lib.sha256_hex q)

  unfoldable pub encode_activity_cursor : ℕ → String → String
  encode_activity_cursor activity listing_id =
      lib.encode (obj (field "a" (str (lib.isoformat activity)) (field "i" (str listing_id) end)))

  unfoldable pub encode_rank_cursor : Json → String → String → String
  encode_rank_cursor value listing_id q = lib.encode (
      obj
        (field "r" value (field "i" (str listing_id) (field "qh" (str (query_fingerprint q)) end))))

  unfoldable pub encode_similarity_cursor : Json → String → String → String
  encode_similarity_cursor value listing_id q = lib.encode (
      obj
        (field "s" value (field "i" (str listing_id) (field "qh" (str (query_fingerprint q)) end))))

  -- `float(value)`: an OverflowError is none of the exceptions that `decode_cursor` catches.
  unfoldable pub to_float : Json → Parsed Json
  to_float (int z) = if leb float_limit (magnitude z) then overflow else parsed (int z)
  to_float (bool b) = parsed (bool b)
  to_float (float x) = parsed (float x)
  to_float (str s) = if lib.reads_float s then parsed (str s) else malformed
  to_float null = malformed
  to_float (arr _) = malformed
  to_float (obj _) = malformed

  abbrev to_str : Json → String
  to_str (str s) = s
  to_str j = lib.show j

  -- `isinstance(listing_id, str)` and its length
  abbrev read_id : Option Json → Option String
  read_id (some (str s)) = if is_cursor_id s then some s else none
  read_id _ = none

  -- A time without a zone is refused.
  abbrev pub read_time : String → Option (ℕ × Bool) → Result AnyCursor
  read_time id none = invalid
  read_time id (some (t, aware)) = if aware then ok (activity_cursor t id) else invalid

  abbrev read_activity : String → Json → Result AnyCursor
  read_activity id (str s) = read_time id (lib.fromisoformat s)
  read_activity id _ = invalid

  abbrev pub with_value : (Json → String → AnyCursor) → Parsed Json → Option Json → Result AnyCursor
  with_value make overflow fingerprint = crash
  with_value make malformed fingerprint = invalid
  with_value make (parsed v) none = invalid
  with_value make (parsed v) (some h) = ok (make v (to_str h))

  abbrev read_value : (Json → String → AnyCursor) → Json → Option Json → Result AnyCursor
  read_value make value fingerprint = with_value make (to_float value) fingerprint

  -- The shape of the cursor: an activity, else a rank, else a similarity.
  abbrev read_shape :
      String → Option Json → Option Json → Option Json → Option Json → Result AnyCursor
  read_shape id (some a) r s h = read_activity id a
  read_shape id none (some r) s h = read_value (λ v f. rank_cursor v id f) r h
  read_shape id none none (some s) h = read_value (λ v f. similarity_cursor v id f) s h
  read_shape id none none none h = invalid

  abbrev pub read_fields : Option String → Fields → Result AnyCursor
  read_fields none payload = invalid
  read_fields (some id) payload =
      read_shape id (get_field "a" payload) (get_field "r" payload) (get_field "s" payload)
        (get_field "qh" payload)

  abbrev pub read_cursor : Option Json → Result AnyCursor
  read_cursor (some (obj payload)) = read_fields (read_id (get_field "i" payload)) payload
  read_cursor _ = invalid

  unfoldable pub decode_cursor : String → Result AnyCursor
  unfolding to_float get_field is_cursor_id
  decode_cursor cursor = read_cursor (lib.decode cursor)

  abbrev is_query : Option String → Bool
  is_query none = false
  is_query (some q) = not (q == "")

  abbrev same_fingerprint : Option String → String → Bool
  same_fingerprint q h = h == query_fingerprint (or_else q "")

  -- A decoded cursor, for this query.
  unfoldable pub bind_cursor : Option String → AnyCursor → Result AnyCursor
  unfolding query_fingerprint
  bind_cursor q (activity_cursor a id) = if is_query q then invalid else ok (activity_cursor a id)
  bind_cursor q (rank_cursor v id h) =
      if is_query q
      then (if same_fingerprint q h then ok (rank_cursor v id h) else invalid)
      else invalid
  bind_cursor q (similarity_cursor v id h) =
      if is_query q
      then (if same_fingerprint q h then ok (similarity_cursor v id h) else invalid)
      else invalid

  abbrev pub bound : Option String → Result AnyCursor → Result (Option AnyCursor)
  bound q (err e) = err e
  bound q crash = crash
  bound q (ok c) = elim (bind_cursor q c) [ ok c' ↦ ok (some c') | err e ↦ err e | crash ↦ crash ]

  unfoldable pub resolve_cursor : Option String → Option String → Result (Option AnyCursor)
  unfolding decode_cursor bind_cursor
  resolve_cursor none q = ok none
  resolve_cursor (some cursor) q = bound q (decode_cursor cursor)
