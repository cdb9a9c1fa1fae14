-- ===== src/WalletAuth/Sound.antt =====
-- Exactly when a signed request is accepted, and what its refusals are.
use agent_discovery_board.Prelude.{
  ℕ, ◌*◌, ◌/◌, ◌≤◌, String, ◌≡◌, refl, ◌↔◌, inl, inr, Bool, false, not, ◌&&◌, Option, none, some,
  [], ◌∷◌, arith, eq_iff, Option-cases, any, lower, distance,
}
use agent_discovery_board.WalletAuth.{
  Nonces, Libraries, is_expired, prune_expired_nonces, is_pair, claim_nonce, Request, check_signer,
  Header, parse_header, build_message, message_of, verify_header, verify_wallet_auth, second,
}
use agent_discovery_board.Errors.{ApiError, Result, ok, err, crash, http_status}

-- The pair was used and is not yet forgotten.
abbrev pub is_spent : ℕ → ℕ → String → String → Nonces → Bool
is_spent max_age now address n = any (λ e. is_pair address n e && not (is_expired max_age now e))

any-prune :
    (max_age now : ℕ) (address n : String) (seen : Nonces)
    → any (is_pair address n) (prune_expired_nonces max_age now seen)
      ≡ is_spent max_age now address n seen
unfolding prune_expired_nonces
any-prune max_age now address n [] = refl
any-prune max_age now address n (e ∷ seen) = ground (arith, any-prune max_age now address n seen)

claim_lem :
    (max_age now : ℕ) (address n : String) (seen : Nonces)
    → (claim_nonce max_age now address n seen).1 ≡ not (is_spent max_age now address n seen)
unfolding claim_nonce
claim_lem max_age now address n seen = ground (arith, any-prune max_age now address n seen)

parse_registered :
    (lib : Libraries) (raw : Option String) (x e : ApiError)
    → parse_header lib raw ≡ err x
    → x ≡ e
    → e.status_code ≡ http_status e.error_code
unfolding parse_header http_status
parse_registered lib none x e p same = ground arith
parse_registered lib (some raw) x e p same = ground arith

module _ (lib : Libraries) (max_age wall mono : ℕ) (r : Request) (seen : Nonces) where
  -- What acceptance means: a header that parses, a timestamp that is no more than `max_age` off the
  -- server's clock, an unspent nonce, and a signature over the message that the server builds
  -- itself, made by the expected address.
  pub record IsAccepted : Type 0 where
    pub head : Header
    pub signer : String
    pub readable : parse_header lib r.header ≡ ok head
    pub fresh : distance (wall / second) head.timestamp * second ≤ max_age
    pub unspent : is_spent max_age mono (lower r.submitted_by) head.nonce seen ≡ false
    pub signed :
        lib.recover_message
          (build_message lib r.action r.listing_id head.timestamp head.nonce r.body)
          head.signature
        ≡ some signer
    pub genuine : lower signer ≡ lower r.submitted_by

  abbrev outcome : Result (Unit {0})
  outcome = (verify_wallet_auth lib max_age wall mono r seen).0

  header_sound :
      (h : Header)
      → parse_header lib r.header ≡ ok h
      → (verify_header lib max_age wall mono r h seen).0 ≡ ok tt
      → IsAccepted
  unfolding verify_header check_signer
  header_sound h p e =
      let c = claim_lem max_age mono (lower r.submitted_by) h.nonce seen in
      elim (Option-cases (lib.recover_message (message_of lib r h) h.signature)) [
        | inl bad ↦ absurd (ground (arith, c))
        | inr (who, signed) ↦ record {
          head = h;
          signer = who;
          readable = p;
          fresh = ground (arith, c);
          unspent = ground (arith, c);
          signed = signed;
          genuine = ground (arith, c, eq_iff (lower who) (lower r.submitted_by));
        }
      ]

  header_complete : (a : IsAccepted) → (verify_header lib max_age wall mono r a.head seen).0 ≡ ok tt
  unfolding verify_header check_signer
  header_complete a =
      let c = claim_lem max_age mono (lower r.submitted_by) a.head.nonce seen in
      ground (arith, c, eq_iff (lower a.signer) (lower r.submitted_by))

  -- A signed request is accepted exactly when its header parses, its timestamp is no more than
  -- `max_age` off the server's clock, its nonce is unspent, and the signature over the server's own
  -- message recovers to the expected address, whatever the letters' case (`IsAccepted`).
  pub accepted_iff : (outcome ≡ ok tt) ↔ IsAccepted
  unfolding verify_wallet_auth
  accepted_iff = (to (parse_header lib r.header) refl, from)
    where
      to : (p : Result Header) → parse_header lib r.header ≡ p → outcome ≡ ok tt → IsAccepted
      to (ok h) p e = header_sound h p (ground arith)
      to (err x) p e = absurd (ground arith)
      to crash p e = absurd (ground arith)

      from : IsAccepted → outcome ≡ ok tt
      from a = rw (outcome, verify_wallet_auth, a.readable) (header_complete a)

  header_registered :
      (h : Header) (e : ApiError)
      → (verify_header lib max_age wall mono r h seen).0 ≡ err e
      → e.status_code ≡ http_status e.error_code
  unfolding verify_header check_signer http_status
  header_registered h e p = ground arith

  -- Every refusal carries the status that its code is registered with.
  pub refusal_registered :
      (e : ApiError) → outcome ≡ err e → e.status_code ≡ http_status e.error_code
  unfolding verify_wallet_auth
  refusal_registered e = go (parse_header lib r.header) refl
    where
      go :
          (p : Result Header)
          → parse_header lib r.header ≡ p
          → outcome ≡ err e
          → e.status_code ≡ http_status e.error_code
      go (ok h) p q = header_registered h e (ground arith)
      go (err x) p q = parse_registered lib r.header x e p (ground arith)
      go crash p q = absurd (ground arith)
