-- ===== src/Tests/Browse.antt =====
-- Pages and cursors at concrete inputs.
use Prim.Native.Nat.{◌^◌}
use Prim.Native.Char.{code}
use Prim.Native.String
use agent_discovery_board.Prelude.{
  ℕ, String, ◌≡◌, refl, true, false, Option, none, some, [], ◌∷◌, arith, ◌==◌, eqb, not, any_char,
  if◌then◌else◌, pos, int, str, obj, Json, get_field,
}
use agent_discovery_board.Prelude.{field, end}
use agent_discovery_board.Tests.Data.{offering, imported}
use agent_discovery_board.Activity.{last_activity_at}
use agent_discovery_board.Search.{Filter, Mode, by_activity, by_rank, by_similarity, is_bindable}
use agent_discovery_board.Pagination.{
  CursorLibrary, activity_cursor, encode_activity_cursor, encode_rank_cursor,
  encode_similarity_cursor, resolve_cursor, decode_cursor, bind_cursor, query_fingerprint, to_float,
}
use agent_discovery_board.Pagination.Binding.{serves, resolve_cursor-serves}
use agent_discovery_board.Verifier.{unavailable}
use agent_discovery_board.Board.Responses.{View}
use agent_discovery_board.Board.Search.{SearchLibrary, cursor_for}
use agent_discovery_board.Board.Search.Walk.{payload, IsReadable, walk, results, walk_complete}

abbrev pub everything : Filter
everything = record {
  status = none;
  include_test = true;
  listing_type = none;
  task_categories = [];
  claimed = none;
  payment_network = none;
  max_price = none;
  has_template = none;
  stale = none;
}

-- Every text decodes to the place of listing "a", but "huge".
abbrev cursors : CursorLibrary
cursors = record {
  encode = λ j. "c";
  decode = λ s.
      if s == "huge"
      then some
          (obj (field "r" (int (pos (2 ^ 1024))) (field "i" (str "a") (field "qh" (str "h") end))))
      else some (obj (field "a" (str "1970-01-01T00:00:00+00:00") (field "i" (str "a") end)));
  isoformat = λ t. "1970-01-01T00:00:00+00:00";
  fromisoformat = λ s. some (0, true);
  sha256_hex = λ s. s;
  reads_float = λ s. false;
  show = λ j. "";
}

resolve_cursor-serves_example : serves cursors none (activity_cursor 0 "a") ≡ true
unfolding resolve_cursor decode_cursor get_field bind_cursor
resolve_cursor-serves_example = resolve_cursor-serves cursors "c" none (activity_cursor 0 "a") refl

-- A cursor is the kind of its value and the id; every row has the same time and scores.
abbrev encode_place : Json → String
encode_place (obj (field kind v (field i (str id) rest))) = String.◌++◌ kind id
encode_place _ = ""

abbrev scored : String → String → Json
scored kind id =
    obj (field kind (int (pos 1)) (field "i" (str id) (field "qh" (str "translate") end)))

abbrev decode_place : String → Option Json
decode_place String.[] = none
decode_place (String.◌∷◌ c id) =
    if eqb (code c) b'a'
    then some (obj (field "a" (str "t") (field "i" (str id) end)))
    else some (if eqb (code c) b'r' then scored "r" id else scored "s" id)

abbrev read_number : Json → ℕ
read_number (int (pos n)) = n
read_number _ = 0

abbrev pub view : View
view = record {
  facts = record {
    json = record { show = λ j. ""; float_is_true = λ x. true };
    is_free_path = λ fs. true;
    is_badge = λ b. true;
    service_url = "https://v.example";
  };
  badge = λ agent. none;
  snapshot = record { payment = none; free_path = none; status = unavailable; fetched_at = none };
  stale_after = 5000;
  test_ttl = 1000;
}

-- Full text finds every row.
abbrev pub searching : SearchLibrary
searching = record {
  cursors = record cursors {
    encode = encode_place;
    decode = decode_place;
    isoformat = λ t. "t";
    fromisoformat = λ s. some (200, true);
  };
  engine = record {
    is_match = λ q r. true;
    rank = λ q r. 1;
    trigram_available = true;
    is_similar = λ q r. true;
    similarity = λ q r. 1;
    read_score = read_number;
    write_score = λ n. int (pos n);
  };
  view = view;
  takes = λ s. not (any_char (λ c. eqb c 0) s);
}

offering-decodes :
    (m : Mode)
    → decode_place (cursor_for searching m "translate" offering)
      ≡ some (payload searching m "translate" offering)
unfolding cursor_for last_activity_at encode_activity_cursor encode_rank_cursor query_fingerprint
    encode_similarity_cursor
offering-decodes by_activity = refl
offering-decodes by_rank = refl
offering-decodes by_similarity = refl

imported-decodes :
    (m : Mode)
    → decode_place (cursor_for searching m "translate" imported)
      ≡ some (payload searching m "translate" imported)
unfolding cursor_for last_activity_at encode_activity_cursor encode_rank_cursor query_fingerprint
    encode_similarity_cursor
imported-decodes by_activity = refl
imported-decodes by_rank = refl
imported-decodes by_similarity = refl

offering-IsReadable : IsReadable searching "translate" offering
unfolding last_activity_at to_float
offering-IsReadable = record {
  long = omega arith;
  short = omega arith;
  decodes = offering-decodes;
  zoned = refl;
  rank_back = record { is_float = refl; same = refl };
  similarity_back = record { is_float = refl; same = refl };
  taken = refl;
}

imported-IsReadable : IsReadable searching "translate" imported
unfolding last_activity_at to_float
imported-IsReadable = record {
  long = omega arith;
  short = omega arith;
  decodes = imported-decodes;
  zoned = refl;
  rank_back = record { is_float = refl; same = refl };
  similarity_back = record { is_float = refl; same = refl };
  taken = refl;
}

-- One row a page.
walk_complete_example :
    walk searching everything 900 (some "translate") 1 (offering ∷ imported ∷ []) 2 none
    ≡ results searching everything 900 (some "translate") (offering ∷ imported ∷ [])
unfolding is_bindable
walk_complete_example =
    walk_complete searching everything 900 (some "translate") 1 (offering ∷ imported ∷ [])
      (omega arith) refl ((refl, tt), (tt, tt)) (offering-IsReadable, (imported-IsReadable, tt))
