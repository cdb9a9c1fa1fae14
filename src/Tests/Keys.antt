-- ===== src/Tests/Keys.antt =====
-- Two spellings of one endpoint.
use mathlib.Core.List.{Permᴰ}
use agent_discovery_board.Prelude.{
  String, ◌≡◌, refl, none, some, [], ◌∷◌, ◌==◌, if◌then◌else◌, lower, strip,
}
use agent_discovery_board.Endpoint.{UrlLibrary, strip_end, default_port, normalize_endpoint_url}
use agent_discovery_board.Endpoint.Same.{SamePath, normalize-SameService}

abbrev shouted : String
shouted = "HTTPS://Api.Example.:443/v1//quote/?b=2&a=1"

abbrev plain : String
plain = "https://api.example/v1/quote?a=1&b=2"

abbrev spellings : UrlLibrary
spellings = record {
  urlsplit = λ url.
      if url == plain
      then record {
        scheme = "https";
        hostname = some "api.example";
        port = none;
        path = "/v1/quote";
        query = "a=1&b=2";
      }
      else record {
        scheme = "HTTPS";
        hostname = some "Api.Example.";
        port = some 443;
        path = "/v1//quote/";
        query = "b=2&a=1";
      };
  parse_qsl =
      λ q. if q == "a=1&b=2" then ("a", "1") ∷ ("b", "2") ∷ [] else ("b", "2") ∷ ("a", "1") ∷ [];
  urlencode = λ ps. "a=1&b=2";
  show_port = λ n. "443";
}

normalize-SameService_example :
    normalize_endpoint_url spellings shouted ≡ normalize_endpoint_url spellings plain
unfolding lower strip strip_end default_port
normalize-SameService_example = normalize-SameService spellings shouted plain (record {
  scheme = refl;
  host = refl;
  port = refl;
  path = SamePath.chain (SamePath.trailing "/v1//quote") (SamePath.doubled "/v1" "quote");
  query = Permᴰ.swap refl refl;
})
