-- ===== src/WalletAuth.antt =====
-- app/core/wallet_auth.py with app/core/canonical.py: signed requests. `time.time()` (`wall`) and
-- `time.monotonic()` (`mono`) are whole microseconds, and so is SIGNATURE_MAX_AGE_SECONDS.
pub mod Gaps
pub mod Message
pub mod Replay
pub mod Sound
use Prim.Native.String
use agent_discovery_board.Prelude.{
  ℕ, zero, suc, ◌+◌, ◌-◌, ◌*◌, ◌/◌, ◌%◌, ◌≤◌, ◌<◌, min, max, String, ◌≡◌, refl, sym, ap, ◌∙◌, ◌≢◌,
  ◌↔◌, ◌⊎◌, inl, inr, Bool, true, false, not, ◌&&◌, ◌||◌, Option, none, some, List, [], ◌∷◌, ◌++◌,
  map, arith, ◌==◌, eq_iff, eq_refl, ltb, leb, eqb, if◌then◌else◌, tests, Bool-cases, Option-cases,
  is_none, is_some, or_else, length, take, drop, keep, any, all, find, length-append,
  length-keep-le, All, str_len, all_chars, any_char, starts_with, is_in, lower, strip, ℤ, pos,
  negsuc, distance, Float, finite, nan, infinite, Json, null, bool, int, float, str, arr, obj,
  Items, Fields, get_field,
}
use agent_discovery_board.Errors.{
  ErrorCode, missing_signature, malformed_signature, stale_signature, replayed_signature,
  invalid_signature, wrong_signer, Extras, clock, ApiError, Result, ok, err, crash, api_error,
}

abbrev pub second : ℕ
second = 1000000

-- SIGNED_ACTIONS
pub data Action : Type 0 where
  update_listing delete_listing heartbeat_listing claim_listing remove_imported_listing : Action

abbrev pub action_name : Action → String
action_name update_listing = "update-listing"
action_name delete_listing = "delete-listing"
action_name heartbeat_listing = "heartbeat-listing"
action_name claim_listing = "claim-listing"
action_name remove_imported_listing = "remove-imported-listing"

-- (address, nonce) with the monotonic time at which it was seen
pub record Seen : Type 0 where
  pub address : String
  pub nonce : String
  pub seen_at : ℕ

abbrev pub Nonces : Type 0
Nonces = List Seen

-- What the module takes from its libraries: `base64.b64decode` followed by `json.loads` (`none`
-- where either raises), `int` on a text, `str` on an integer, `json.dumps` with sorted keys,
-- `hashlib.sha256(...).hexdigest()`, and `Account.recover_message` (`none` where it raises).
pub record Libraries : Type 0 where
  pub decode_json : String → Option Json
  pub int_of_str : String → Option ℤ
  pub show_int : ℤ → String
  pub json_dumps : Json → String
  pub sha256_hex : String → String
  pub recover_message : String → String → Option String

-- now - seen_at > horizon
abbrev pub is_expired : ℕ → ℕ → Seen → Bool
is_expired max_age now e = ltb (e.seen_at + max_age * 2) now

-- Both branches of `_prune_expired_nonces` are this loop.
unfoldable pub prune_expired_nonces : ℕ → ℕ → Nonces → Nonces
prune_expired_nonces max_age now seen = keep (λ e. not (is_expired max_age now e)) seen

abbrev pub is_pair : String → String → Seen → Bool
is_pair address nonce e = e.address == address && e.nonce == nonce

-- The table after the claim, and whether the pair is used for the first time.
unfoldable pub claim_nonce : ℕ → ℕ → String → String → Nonces → Nonces × Bool
claim_nonce max_age now address nonce seen =
    let seen' = prune_expired_nonces max_age now seen in
    if any (is_pair address nonce) seen'
    then (seen', false)
    else (seen' ++ (record { address = address; nonce = nonce; seen_at = now }) ∷ [], true)

-- abs(now - timestamp) > SIGNATURE_MAX_AGE_SECONDS, with now = int(time.time())
abbrev pub is_stale : ℕ → ℕ → ℤ → Bool
is_stale max_age wall timestamp = ltb max_age (distance (wall / second) timestamp * second)

-- The check of the recovered address.
unfoldable pub check_signer : String → Option String → Result (Unit {0})
check_signer submitted_by none = err (api_error 401 invalid_signature)
check_signer submitted_by (some recovered) =
    if lower recovered == lower submitted_by then ok tt else err (api_error 403 wrong_signer)

-- The request of a signed action, as the handler passes it on.
pub record Request : Type 0 where
  pub header : Option String
  pub action : Action
  pub listing_id : String
  pub submitted_by : String
  pub body : Option Json

infixr 66 ◌⊹◌
abbrev pub ◌⊹◌ : String → String → String
◌⊹◌ = String.◌++◌

-- What `_parse_header` returns on success.
pub record Header : Type 0 where
  pub signature : String
  pub timestamp : ℤ
  pub nonce : String

-- `int(payload["timestamp"])`: an OverflowError, for an infinite float, is none of the exceptions
-- that `_parse_header` catches.
pub data Parsed {ℓ} (A : Type ℓ) : Type ℓ where
  parsed : A → Parsed A
  malformed : Parsed A
  overflow : Parsed A

module _ (lib : Libraries) where
  unfoldable pub to_int : Json → Parsed ℤ
  to_int (int z) = parsed z
  to_int (bool true) = parsed (pos 1)
  to_int (bool false) = parsed (pos 0)
  to_int (float (finite z)) = parsed z
  to_int (float nan) = malformed
  to_int (float infinite) = overflow
  to_int (str s) = elim (lib.int_of_str s) [ none ↦ malformed | some z ↦ parsed z ]
  to_int null = malformed
  to_int (arr _) = malformed
  to_int (obj _) = malformed

  abbrev check_types : Option Json → ℤ → Option Json → Parsed Header
  check_types (some (str signature)) timestamp (some (str nonce)) =
      if leb 1 (str_len nonce) && leb (str_len nonce) 128
      then parsed (record { signature = signature; timestamp = timestamp; nonce = nonce })
      else malformed
  check_types _ timestamp _ = malformed

  -- The field reads in the order of the source: a missing signature is a KeyError before the
  -- timestamp is converted.
  abbrev read_fields : Option Json → Option Json → Option Json → Parsed Header
  read_fields none timestamp n = malformed
  read_fields (some s) none n = malformed
  read_fields (some s) (some t) n = elim (to_int t) [
    | malformed ↦ malformed
    | overflow ↦ overflow
    | parsed z ↦ check_types (some s) z n
  ]

  abbrev read_payload : Option Json → Parsed Header
  read_payload (some (obj payload)) =
      read_fields (get_field "signature" payload) (get_field "timestamp" payload)
        (get_field "nonce" payload)
  read_payload _ = malformed

  unfoldable pub parse_header : Option String → Result Header
  unfolding to_int get_field
  parse_header none = err (api_error 401 missing_signature)
  parse_header (some raw) =
      if raw == ""
      then err (api_error 401 missing_signature)
      else elim (read_payload (lib.decode_json raw)) [
        | parsed h ↦ ok h
        | malformed ↦ err (api_error 401 malformed_signature)
        | overflow ↦ crash
      ]

  -- canonical_json
  abbrev pub canonical_json : Json → String
  canonical_json payload = lib.json_dumps payload

  abbrev body_line : Option Json → String
  body_line none = ""
  body_line (some body) = String.◌++◌ "\nbody_sha256: " (lib.sha256_hex (canonical_json body))

  unfoldable pub build_message : Action → String → ℤ → String → Option Json → String
  build_message action listing_id timestamp nonce body =
      "Agent Discovery Board\naction: "
      ⊹ action_name action
      ⊹ "\nlisting_id: "
      ⊹ listing_id
      ⊹ "\ntimestamp: "
      ⊹ lib.show_int timestamp
      ⊹ "\nnonce: "
      ⊹ nonce
      ⊹ body_line body

  abbrev pub message_of : Request → Header → String
  message_of r h = build_message r.action r.listing_id h.timestamp h.nonce r.body

  -- From the parsed header on. The nonce is spent before the signature is looked at.
  unfoldable pub verify_header :
      (max_age wall mono : ℕ) → Request → Header → Nonces → Result (Unit {0}) × Nonces
  verify_header max_age wall mono r h seen =
      if is_stale max_age wall h.timestamp
      then (
        err (record {
          status_code = 401;
          error_code = stale_signature;
          extras = clock (wall / second) (max_age / second);
        }),
        seen,
      )
      else let (seen', first) = claim_nonce max_age mono (lower r.submitted_by) h.nonce seen in
        if first
        then (check_signer r.submitted_by (lib.recover_message (message_of r h) h.signature), seen')
        else (err (api_error 401 replayed_signature), seen')

  unfoldable pub verify_wallet_auth :
      (max_age wall mono : ℕ) → Request → Nonces → Result (Unit {0}) × Nonces
  verify_wallet_auth max_age wall mono r seen = elim (parse_header r.header) [
    | ok h ↦ verify_header max_age wall mono r h seen
    | err e ↦ (err e, seen)
    | crash ↦ (crash, seen)
  ]
