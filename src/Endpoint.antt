-- ===== src/Endpoint.antt =====
-- app/core/endpoint.py: `normalize_endpoint_url`, the key under which duplicates are found.
pub mod Same
use Prim.Native.Char.{code}
use Prim.Native.String
use agent_discovery_board.Prelude.{
  ℕ, String, Bool, false, ◌&&◌, Option, none, some, List, [], ◌∷◌, ◌==◌, eqb, if◌then◌else◌,
  or_else, any_char, le_str, lower, strip,
}

-- The fields of `urlsplit(url)` that are read, on a URL that a validator has let through, where
-- neither the split nor `.port` raises.
pub record SplitUrl : Type 0 where
  pub scheme : String
  pub hostname : Option String
  pub port : Option ℕ
  pub path : String
  pub query : String

-- What the module takes from `urllib.parse`, with `str` on a port: the split, the fields of a query
-- with their blank values, and the query of a list of fields.
pub record UrlLibrary : Type 0 where
  pub urlsplit : String → SplitUrl
  pub parse_qsl : String → List (String × String)
  pub urlencode : List (String × String) → String
  pub show_port : ℕ → String

infixr 66 ◌⊹◌
abbrev pub ◌⊹◌ : String → String → String
◌⊹◌ = String.◌++◌

-- s.rstrip(c)
unfoldable pub strip_end : ℕ → String → String
strip_end c String.[] = ""
strip_end c (String.◌∷◌ d s) =
    let rest = strip_end c s in if eqb (code d) c && rest == "" then "" else String.◌∷◌ d rest

abbrev pub starts_slash : String → Bool
starts_slash String.[] = false
starts_slash (String.◌∷◌ d s) = eqb (code d) b'/'

-- re.sub(r"/{2,}", "/", path): of a run of slashes the last one stays.
unfoldable pub collapse_slashes : String → String
collapse_slashes String.[] = ""
collapse_slashes (String.◌∷◌ d s) =
    let rest = collapse_slashes s in
    if eqb (code d) b'/' && starts_slash s then rest else String.◌∷◌ d rest

abbrev pub le_pair : String × String → String × String → Bool
le_pair a b = if a.0 == b.0 then le_str a.1 b.1 else le_str a.0 b.0

-- sorted(pairs)
unfoldable pub insert_pair : String × String → List (String × String) → List (String × String)
insert_pair p [] = p ∷ []
insert_pair p (q ∷ qs) = if le_pair p q then p ∷ q ∷ qs else q ∷ insert_pair p qs

unfoldable pub sort_pairs : List (String × String) → List (String × String)
sort_pairs [] = []
sort_pairs (p ∷ ps) = insert_pair p (sort_pairs ps)

-- {"https": 443, "http": 80}.get(scheme)
unfoldable pub default_port : String → Option ℕ
default_port scheme =
    if scheme == "https" then some 443 else if scheme == "http" then some 80 else none

abbrev is_default : Option ℕ → ℕ → Bool
is_default none p = false
is_default (some d) p = eqb p d

abbrev pub netloc_of : UrlLibrary → String → String → Option ℕ → String
netloc_of urls scheme host none = host
netloc_of urls scheme host (some p) =
    if is_default (default_port scheme) p then host else host ⊹ ":" ⊹ urls.show_port p

unfoldable pub normalize_path : String → String
normalize_path path = strip_end b'/' (collapse_slashes path)

unfoldable pub normalize_host : Option String → String
normalize_host hostname =
    let host = strip_end b'.' (lower (or_else hostname "")) in
    if any_char (λ c. eqb c b':') host then "[" ⊹ host ⊹ "]" else host

unfoldable pub normalize_endpoint_url : UrlLibrary → String → String
normalize_endpoint_url urls url =
    let parts = urls.urlsplit (strip url) in
    let scheme = lower parts.scheme in
    let netloc = netloc_of urls scheme (normalize_host parts.hostname) parts.port in
    let query = urls.urlencode (sort_pairs (urls.parse_qsl parts.query)) in
    scheme ⊹ "://" ⊹ netloc ⊹ normalize_path parts.path ⊹ (if query == "" then "" else "?" ⊹ query)
