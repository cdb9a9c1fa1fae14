-- ===== src/ImportSync/BoardUrl.antt =====
-- app/core/import_sync.py: the board's own URL that a script builds template links from.
use agent_discovery_board.Prelude.{
  String, Bool, true, false, not, ◌&&◌, ◌||◌, Option, none, some, ◌==◌, if◌then◌else◌, or_else,
  lower, strip, ends_with,
}
use agent_discovery_board.Endpoint.{strip_end}
use agent_discovery_board.ImportSync.Records.{board_template_base}

-- From the standard library: the scheme and the host of `urlparse`, and `ipaddress.ip_address` with whether
-- the address is a loopback and whether it is unspecified (`none` where the host is no address).
pub record AddressLibrary : Type 0 where
  pub scheme : String → String
  pub hostname : String → Option String
  pub ip_address : String → Option (Bool × Bool)

module _ (lib : AddressLibrary) where
  unfoldable pub is_local_url : String → Bool
  unfolding ends_with
  is_local_url url =
      let host = lower (or_else (lib.hostname url) "") in
      if host == "localhost" || ends_with host ".localhost"
      then true
      else elim (lib.ip_address host) [
        | none ↦ false
        | some (loopback, unspecified) ↦ loopback || unspecified
      ]

  abbrev is_web_url : String → Bool
  is_web_url value =
      (lib.scheme value == "http" || lib.scheme value == "https")
      && not (or_else (lib.hostname value) "" == "")

  -- explicit or board_template_base() or ""
  abbrev first_url : Option String → Option String → String
  first_url explicit base =
      if or_else explicit "" == ""
      then or_else (board_template_base base) ""
      else or_else explicit ""

  -- `none` is a ValueError; `base` is SERVICE_BASE_URL.
  unfoldable pub resolve_board_url :
      Option String → Option String → (allow_local : Bool) → Option String
  unfolding strip_end is_local_url board_template_base strip
  resolve_board_url explicit base allow_local =
      let value = strip_end b'/' (strip (first_url explicit base)) in
      if value == ""
      then none
      else if not (is_web_url value)
      then none
      else if is_local_url value && not allow_local
      then none
      else some value
