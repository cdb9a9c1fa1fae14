-- ===== src/Tests/Data.antt =====
-- Values for the tests: libraries that compute, two listings and an import, a table and a process.
use agent_discovery_board.Prelude.{
  String, true, false, Option, none, some, [], ◌∷◌, ◌==◌, if◌then◌else◌, pos, infinite, Json, int,
  float, str, obj, Fields, field, end,
}
use agent_discovery_board.Listing.{active, per_call, Listing}
use agent_discovery_board.Endpoint.{UrlLibrary}
use agent_discovery_board.Models.{ModelLibrary, ListingCreate}
use agent_discovery_board.RateLimit.{RateLimiter}
use agent_discovery_board.WalletAuth.{Libraries}
use agent_discovery_board.Store.{Db}
use agent_discovery_board.Board.Monad.{State, Env}

abbrev pub alice : String
alice = "0xaaaaaaaaaaaaaaaaaaaaaaaaaaaaaaaaaaaaaaaa"

abbrev pub bob : String
bob = "0xbbbbbbbbbbbbbbbbbbbbbbbbbbbbbbbbbbbbbbbb"

abbrev pub nobody : String
nobody = "0x0000000000000000000000000000000000000000"

-- A header is its signer: the signature of everyone is their address.
abbrev pub payload : String → Json → Fields
payload who timestamp =
    field "signature" (str who) (field "timestamp" timestamp (field "nonce" (str "n1") end))

abbrev pub libraries : Libraries
libraries = record {
  decode_json = λ raw.
      if raw == "forever"
      then some (obj (payload alice (float infinite)))
      else if raw == "garbage"
      then none
      else some (obj (payload raw (int (pos 1000))));
  int_of_str = λ s. none;
  show_int = λ z. "1000";
  json_dumps = λ j. "{}";
  sha256_hex = λ s. s;
  recover_message = λ message signature. some signature;
}

abbrev pub urls : UrlLibrary
urls = record {
  urlsplit = λ url. record {
    scheme = "https";
    hostname = some url;
    port = some 443;
    path = "/v1//";
    query = "";
  };
  parse_qsl = λ q. [];
  urlencode = λ ps. "";
  show_port = λ n. "443";
}

abbrev pub models : ModelLibrary
models = record {
  urlparse = λ url.
      some (record { scheme = "https"; netloc = url; hostname = some url; bad_port = false });
  dumps_length = λ fields. 100;
}

abbrev pub offering : Listing
offering = record {
  id = "a";
  name = "Translator";
  description = "Translates";
  listing_type = "offering";
  task_categories = "translation" ∷ [];
  endpoint_url = "a.example";
  payment_wallet = alice;
  pricing_model = some per_call;
  pricing_amount = some "0.02 USDC";
  payment_options = [];
  erc8004_identity = none;
  verification_agent_id = none;
  submitted_by = alice;
  status = active;
  is_test = false;
  created_at = 100;
  updated_at = 200;
  last_seen_at = none;
  claimed = true;
  source = none;
  source_url = none;
  imported_at = none;
  last_synced_at = none;
  missing_from_source_since = none;
  output_schema = none;
  verification = none;
  template_url = none;
  endpoint_key = "https://a.example/v1";
}

abbrev pub imported : Listing
imported = record offering {
  id = "i";
  listing_type = "verification_profile";
  endpoint_url = "i.example";
  submitted_by = nobody;
  claimed = false;
  source = some "feed";
  imported_at = some 300;
  last_synced_at = some 300;
  endpoint_key = "https://i.example/v1";
}

abbrev pub expired : Listing
expired = record offering {
  id = "t";
  name = "test-1";
  endpoint_url = "t.example";
  is_test = true;
  endpoint_key = "https://t.example/v1";
}

abbrev pub tables : Db
tables = record { listings = offering ∷ imported ∷ []; do_not_import = [] }

abbrev pub no_tables : Db
no_tables = record { listings = []; do_not_import = [] }

-- Five requests a minute, a thousand a day.
abbrev pub limiter : RateLimiter
limiter = record {
  max_requests = 5;
  window_seconds = 60000000;
  global_daily_cap = 1000;
  counters = [];
  day = 0;
  served_today = 0;
}

abbrev pub process : State
process = record {
  db = tables;
  nonces = [];
  create_limiter = limiter;
  mutate_limiter = limiter;
  throttle = record { ttl = 86400000000; min_interval = 600000000; last_run = some 1000000000 };
}

-- A request at second 1000 with a header, alone.
abbrev pub request : Option String → Env
request header = record {
  lib = libraries;
  urls = urls;
  models = models;
  max_age = 300000000;
  storable = λ row. true;
  heartbeat_interval = 86400000000;
  wall = 1000000000;
  mono = 1000000000;
  client = some "10.0.0.1";
  header = header;
  new_id = "new";
  purge_fails = false;
  between = λ n db. db;
}

abbrev pub body : ListingCreate
body = record {
  name = "Summarizer";
  description = "Summarizes";
  listing_type = "offering";
  task_categories = "summarization" ∷ [];
  endpoint_url = "s.example";
  payment_wallet = bob;
  pricing_model = none;
  pricing_amount = none;
  payment_options = [];
  erc8004_identity = none;
  verification_agent_id = none;
  output_schema = none;
  verification = none;
  template_url = none;
  submitted_by = bob;
}
