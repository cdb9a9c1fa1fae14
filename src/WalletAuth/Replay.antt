-- ===== src/WalletAuth/Replay.antt =====
-- A spent nonce is refused for as long as it is remembered, and one second less than it should be.
use agent_discovery_board.Prelude.{
  ℕ, ◌+◌, ◌*◌, ◌/◌, ◌≤◌, String, ◌≡◌, Bool, true, false, ◌&&◌, List, [], ◌∷◌, ◌++◌, arith, eq_refl,
  leb, if◌then◌else◌, any, All, lower,
}
use agent_discovery_board.WalletAuth.{
  Seen, Nonces, Libraries, prune_expired_nonces, is_pair, claim_nonce, Request, is_stale, Header,
  parse_header, verify_header, verify_wallet_auth, second,
}
use agent_discovery_board.Errors.{
  stale_signature, replayed_signature, clock, Result, ok, err, crash, api_error,
}

module _ (address n : String) where
  any-append :
      (xs : Nonces) (e : Seen)
      → is_pair address n e ≡ true
      → any (is_pair address n) (xs ++ e ∷ []) ≡ true
  any-append [] e h = rw h
  any-append (x ∷ xs) e h = ground (arith, any-append xs e h)

  any-append_left :
      (xs : Nonces) (e : Seen)
      → any (is_pair address n) xs ≡ true
      → any (is_pair address n) (xs ++ e ∷ []) ≡ true
  any-append_left [] e h = cc
  any-append_left (x ∷ xs) e h = ground (arith, any-append_left xs e)

-- The pair was seen at `t` or later.
abbrev is_recent : String → String → ℕ → Seen → Bool
is_recent address n t e = is_pair address n e && leb t e.seen_at

abbrev pub Remembers : String → String → ℕ → Nonces → Type 0
Remembers address n t seen = any (is_recent address n t) seen ≡ true

module _ (address n : String) (t max_age now : ℕ) (young : now ≤ t + max_age * 2) where
  prune-Remembers :
      (seen : Nonces)
      → Remembers address n t seen
      → Remembers address n t (prune_expired_nonces max_age now seen)
  unfolding prune_expired_nonces
  prune-Remembers [] h = cc
  prune-Remembers (e ∷ seen) h = ground (arith, prune-Remembers seen)

  recent-append :
      (seen : Nonces) (e : Seen)
      → Remembers address n t seen
      → Remembers address n t (seen ++ e ∷ [])
  recent-append [] e h = cc
  recent-append (x ∷ seen) e h = ground (arith, recent-append seen e)

  claim-Remembers :
      (a m : String) (seen : Nonces)
      → Remembers address n t seen
      → Remembers address n t (claim_nonce max_age now a m seen).0
  unfolding claim_nonce
  claim-Remembers a m seen h =
      let p = prune-Remembers seen h in
      let q =
        recent-append (prune_expired_nonces max_age now seen)
          (record { address = a; nonce = m; seen_at = now }) p in
      ground arith

  is_pair_of_recent :
      (seen : Nonces) → Remembers address n t seen → any (is_pair address n) seen ≡ true
  is_pair_of_recent [] h = cc
  is_pair_of_recent (e ∷ seen) h = ground (arith, is_pair_of_recent seen)

  claim_again :
      (seen : Nonces)
      → Remembers address n t seen
      → (claim_nonce max_age now address n seen).1 ≡ false
  unfolding claim_nonce
  claim_again seen h =
      let p = is_pair_of_recent (prune_expired_nonces max_age now seen) (prune-Remembers seen h) in
      ground arith

claim_first :
    (max_age now : ℕ) (address n : String) (seen : Nonces)
    → (claim_nonce max_age now address n seen).1 ≡ true
    → Remembers address n now (claim_nonce max_age now address n seen).0
unfolding claim_nonce
claim_first max_age now address n seen h =
    let e : Seen = record { address = address; nonce = n; seen_at = now } in
    let self = λ (xs : Nonces). last xs e (ground (arith, eq_refl address, eq_refl n)) in
    ground (arith, self (prune_expired_nonces max_age now seen))
  where
    last :
        (xs : Nonces) (e : Seen)
        → is_recent address n now e ≡ true
        → Remembers address n now (xs ++ e ∷ [])
    last [] e p = rw p
    last (x ∷ xs) e p = ground (arith, last xs e p)

-- One use of `verify_wallet_auth`, with the clocks that it reads.
pub record Attempt : Type 0 where
  pub wall : ℕ
  pub mono : ℕ
  pub request : Request

module _ (lib : Libraries) (max_age : ℕ) where
  abbrev pub attempt : Attempt → Nonces → Result (Unit {0}) × Nonces
  attempt a = verify_wallet_auth lib max_age a.wall a.mono a.request

  pub run : List Attempt → Nonces → Nonces
  run [] seen = seen
  run (a ∷ rest) seen = run rest (attempt a seen).1

  attempt-Remembers :
      (address n : String) (t : ℕ) (a : Attempt) (seen : Nonces)
      → a.mono ≤ t + max_age * 2
      → Remembers address n t seen
      → Remembers address n t (attempt a seen).1
  unfolding verify_wallet_auth verify_header
  attempt-Remembers address n t a seen young h =
      elim (parse_header lib a.request.header)
        as (λ p. Remembers address n t (
          (elim p as (λ _. Result (Unit {0}) × Nonces) [
            | ok q ↦ verify_header lib max_age a.wall a.mono a.request q seen
            | err e ↦ (err e, seen)
            | crash ↦ (crash, seen)
          ]).1)) [
            | ok q ↦
                let k =
                  claim-Remembers address n t max_age a.mono young (lower a.request.submitted_by)
                    q.nonce seen h in
                ground arith
            | err e ↦ h
            | crash ↦ h
          ]

  run-Remembers :
      (address n : String) (t : ℕ) (rest : List Attempt) (seen : Nonces)
      → All (λ a. a.mono ≤ t + max_age * 2) rest
      → Remembers address n t seen
      → Remembers address n t (run rest seen)
  unfolding run
  run-Remembers address n t [] seen young h = h
  run-Remembers address n t (a ∷ rest) seen (first, later) h =
      run-Remembers address n t rest (attempt a seen).1 later
        (attempt-Remembers address n t a seen first h)

  attempt_parsed :
      (a : Attempt) (h : Header) (seen : Nonces)
      → parse_header lib a.request.header ≡ ok h
      → attempt a seen ≡ verify_header lib max_age a.wall a.mono a.request h seen
  unfolding verify_wallet_auth
  attempt_parsed a h seen p = ground arith

  -- An attempt that succeeds has spent its nonce.
  accepted-Remembers :
      (a : Attempt) (h : Header) (seen : Nonces)
      → parse_header lib a.request.header ≡ ok h
      → (attempt a seen).0 ≡ ok tt
      → Remembers (lower a.request.submitted_by) h.nonce a.mono (attempt a seen).1
  unfolding verify_header
  accepted-Remembers a h seen p e =
      let first = claim_first max_age a.mono (lower a.request.submitted_by) h.nonce seen in
      let same = attempt_parsed a h seen p in ground (arith, same, first)

  -- The refusal of an attempt whose nonce is spent.
  abbrev pub refusal : Attempt → Header → Result (Unit {0})
  refusal a h =
      if is_stale max_age a.wall h.timestamp
      then err (record {
        status_code = 401;
        error_code = stale_signature;
        extras = clock (a.wall / second) (max_age / second);
      })
      else err (api_error 401 replayed_signature)

  refused_again :
      (address n : String) (t : ℕ) (a : Attempt) (h : Header) (seen : Nonces)
      → Remembers address n t seen
      → a.mono ≤ t + max_age * 2
      → parse_header lib a.request.header ≡ ok h
      → h.nonce ≡ n
      → lower a.request.submitted_by ≡ address
      → (attempt a seen).0 ≡ refusal a h
  unfolding verify_header
  refused_again address n t a h seen known young p same_nonce same_address =
      let again = claim_again address n t max_age a.mono young seen known in
      let same = attempt_parsed a h seen p in ground (arith, same, again)

  -- Once an attempt has succeeded, every attempt with the same nonce for the same wallet, up to
  -- twice the maximal age later on the monotonic clock and whatever came between, is refused: as
  -- stale if its timestamp is, and as replayed otherwise.
  pub no_replay :
      (a b : Attempt) (h k : Header) (between : List Attempt) (seen : Nonces)
      → parse_header lib a.request.header ≡ ok h
      → parse_header lib b.request.header ≡ ok k
      → (attempt a seen).0 ≡ ok tt
      → All (λ c. c.mono ≤ a.mono + max_age * 2) between
      → b.mono ≤ a.mono + max_age * 2
      → k.nonce ≡ h.nonce
      → lower b.request.submitted_by ≡ lower a.request.submitted_by
      → (attempt b (run between (attempt a seen).1)).0 ≡ refusal b k
  no_replay a b h k between seen p q accepted young_between young same_nonce same_address =
      refused_again (lower a.request.submitted_by) h.nonce a.mono b k
        (run between (attempt a seen).1)
        (run-Remembers (lower a.request.submitted_by) h.nonce a.mono between (attempt a seen).1
          young_between (accepted-Remembers a h seen p accepted))
        young q same_nonce same_address
