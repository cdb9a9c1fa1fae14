-- ===== src/WalletAuth/Gaps.antt =====
-- Where the checks of a signed request fall short of what they mean.
use agent_discovery_board.Prelude.{
  ℕ, ◌+◌, ◌-◌, ◌*◌, ◌/◌, ◌≤◌, ◌<◌, String, ◌≡◌, refl, ap, ◌∙◌, ◌≢◌, false, some, [], ◌∷◌, arith,
  eq_iff, lower, pos, distance, infinite, Json, float, obj, Fields, get_field,
}
use agent_discovery_board.WalletAuth.{
  Nonces, Libraries, prune_expired_nonces, claim_nonce, Request, is_stale, Header, parse_header,
  message_of, verify_header, verify_wallet_auth, second,
}
use agent_discovery_board.Errors.{Result, ok, crash}
use agent_discovery_board.WalletAuth.Sound.{accepted_iff}

-- A header whose timestamp is an infinite float escapes the handlers of `_parse_header`: the request
-- ends in an internal error and not in `malformed_signature`.
pub infinite_timestamp :
    (lib : Libraries) (max_age wall mono : ℕ) (r : Request) (seen : Nonces) (raw : String)
    (payload : Fields) (s : Json)
    → r.header ≡ some raw
    → raw ≢ ""
    → lib.decode_json raw ≡ some (obj payload)
    → get_field "signature" payload ≡ some s
    → get_field "timestamp" payload ≡ some (float infinite)
    → verify_wallet_auth lib max_age wall mono r seen ≡ (crash, seen)
unfolding verify_wallet_auth parse_header
infinite_timestamp lib max_age wall mono r seen raw payload s given shown decoded sig ts =
    ground (arith, eq_iff raw "")

table_after :
    (lib : Libraries) (max_age wall mono : ℕ) (r : Request) (h : Header)
    → is_stale max_age wall h.timestamp ≡ false
    → (verify_header lib max_age wall mono r h []).1
      ≡ (record { address = lower r.submitted_by; nonce = h.nonce; seen_at = mono }) ∷ []
unfolding verify_header claim_nonce prune_expired_nonces
table_after lib max_age wall mono r h fresh = rw fresh refl

verify_parsed :
    (lib : Libraries) (max_age wall mono : ℕ) (r : Request) (h : Header) (seen : Nonces)
    → parse_header lib r.header ≡ ok h
    → verify_wallet_auth lib max_age wall mono r seen ≡ verify_header lib max_age wall mono r h seen
unfolding verify_wallet_auth
verify_parsed lib max_age wall mono r h seen p = ground arith

module _ (lib : Libraries) (age ts d mono : ℕ) (r : Request) (h : Header) (who : String) where
  abbrev first_use : ℕ
  first_use = (ts - age) * second

  abbrev later : ℕ
  later = age * second * 2 + d

  abbrev spent : Nonces
  spent = (record { address = lower r.submitted_by; nonce = h.nonce; seen_at = mono }) ∷ []

  module _ (p : parse_header lib r.header ≡ ok h) (stamped : h.timestamp ≡ pos ts)
      (old : age ≤ ts) where
    first_fresh : distance (first_use / second) h.timestamp * second ≤ age * second
    first_fresh = rw stamped (omega arith)

    later_fresh :
        d < second → distance ((first_use + later) / second) h.timestamp * second ≤ age * second
    later_fresh short = rw stamped (omega arith)

    spent_after : (verify_wallet_auth lib (age * second) first_use mono r []).1 ≡ spent
    spent_after =
        let f = first_fresh in
        let fresh : is_stale (age * second) first_use h.timestamp ≡ false = ground arith in
        ap (λ (x : Result (Unit {0}) × Nonces). x.1)
          (verify_parsed lib (age * second) first_use mono r h [] p)
        ∙ table_after lib (age * second) first_use mono r h fresh

    module _ (signed : lib.recover_message (message_of lib r h) h.signature ≡ some who)
        (genuine : lower who ≡ lower r.submitted_by) where
      first_accepted : (verify_wallet_auth lib (age * second) first_use mono r []).0 ≡ ok tt
      first_accepted = (accepted_iff lib (age * second) first_use mono r []).1 (record {
        head = h;
        signer = who;
        readable = p;
        fresh = first_fresh;
        unspent = refl;
        signed = signed;
        genuine = genuine;
      })

      later_accepted :
          0 < d
          → d < second
          → (verify_wallet_auth lib (age * second) (first_use + later) (mono + later) r spent).0
            ≡ ok tt
      later_accepted some_time short =
          (accepted_iff lib (age * second) (first_use + later) (mono + later) r spent).1 (record {
            head = h;
            signer = who;
            readable = p;
            fresh = later_fresh short;
            unspent = ground arith;
            signed = signed;
            genuine = genuine;
          })

-- A header that is stamped the maximal age ahead of the server's clock and is used at once is
-- accepted again, with the same nonce, in the second after its nonce is forgotten: the freshness
-- test drops the fraction of a second that the monotonic clock keeps.
pub replay_gap :
    (lib : Libraries) (age ts d mono : ℕ) (r : Request) (h : Header) (who : String)
    → parse_header lib r.header ≡ ok h
    → h.timestamp ≡ pos ts
    → lib.recover_message (message_of lib r h) h.signature ≡ some who
    → lower who ≡ lower r.submitted_by
    → age ≤ ts
    → 0 < d
    → d < second
    → let wall = (ts - age) * second in
      let later = age * second * 2 + d in
      let (out, seen) = verify_wallet_auth lib (age * second) wall mono r [] in
      let (again, _) = verify_wallet_auth lib (age * second) (wall + later) (mono + later) r seen in
      (out ≡ ok tt) × (again ≡ ok tt)
replay_gap lib age ts d mono r h who p stamped signed genuine old some_time short = (
  first_accepted lib age ts d mono r h who p stamped old signed genuine,
  rw (spent_after lib age ts d mono r h who p stamped old)
      (later_accepted lib age ts d mono r h who p stamped old signed genuine some_time short),
)
