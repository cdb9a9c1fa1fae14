-- ===== src/Board/Transfer.antt =====
-- app/api/routes/listings.py: `claim_listing`, the transfer of an import to the wallet it pays.
use agent_discovery_board.Prelude.{
  String, ◌≡◌, refl, sym, ap, ◌∙◌, true, false, not, none, some, arith,
}
use agent_discovery_board.Errors.{Result, ok}
use agent_discovery_board.Listing.{Listing}
use agent_discovery_board.Models.Shapes.{is_evm_address}
use agent_discovery_board.Store.{
  Write, wrote, no_row, violation, failed, get_listing, claim_listing,
}
use agent_discovery_board.Store.Once.{update_where_lem}
use agent_discovery_board.WalletAuth.{Request, Nonces, verify_wallet_auth}
use agent_discovery_board.WalletAuth
use agent_discovery_board.Board.Owner.{claim_row, write_claim}
use agent_discovery_board.Board.Frames.{is_accepted, IsQuiet}
use agent_discovery_board.Board.Passed.{bind-Passed, raise_if-Passed}
use agent_discovery_board.Board.Requests.{claiming}
use agent_discovery_board.Board.Authority.{signed_request}
use agent_discovery_board.Board.Monad.{State, Env, ◌>>=◌, verify}

-- What a claim that succeeded was given and did.
pub record Transferred (env : Env) (id : String) (r : Listing) (st : State) (new : Listing)
    (st' : State) : Type 0 where
  pub unclaimed : r.claimed ≡ false
  pub evm_wallet : is_evm_address r.payment_wallet ≡ true
  pub accepted : is_accepted env (signed_request env (claiming id) id r) st.nonces ≡ true
  pub result :
      new ≡ record r { submitted_by = r.payment_wallet; claimed = true; updated_at = env.wall }
  pub stored : get_listing id st'.db ≡ some new

verify-Passed :
    (env : Env) (a : WalletAuth.Action) (id who : String) (st st' : State) (u : Unit {0})
    → verify env a id who none st ≡ (ok u, st')
    → (is_accepted env
          (record {
            header = env.header;
            action = a;
            listing_id = id;
            submitted_by = who;
            body = none;
          })
          st.nonces
        ≡ true)
      × (st'.db ≡ st.db)
unfolding verify is_accepted
verify-Passed env a id who st st' u p =
    let q : Request = record {
      header = env.header;
      action = a;
      listing_id = id;
      submitted_by = who;
      body = none;
    } in
    let fine : (verify_wallet_auth env.lib env.max_age env.wall env.mono q st.nonces).0 ≡ ok u =
      ap (λ (x : Result (Unit {0}) × State). x.0) p in
    (rw (is_accepted, fine) refl, sym (ap (λ (x : Result (Unit {0}) × State). x.1.db) p))

write_claim-Passed :
    (env : Env) (id owner : String) (st st' : State) (new : Listing)
    → write_claim env id owner st ≡ (ok new, st')
    → claim_listing id owner env.wall st.db ≡ wrote new st'.db
unfolding write_claim ◌>>=◌
write_claim-Passed env id owner st st' new p = go (claim_listing id owner env.wall st.db) refl
  where
    go :
        (w : Write)
        → claim_listing id owner env.wall st.db ≡ w
        → claim_listing id owner env.wall st.db ≡ wrote new st'.db
    go (wrote r db) e = ground arith
    go no_row e = absurd (ground arith)
    go violation e = absurd (ground arith)
    go failed e = absurd (ground arith)

-- A claim that succeeds, with no other request meanwhile, was signed for by the wallet that the
-- unclaimed import pays, an EVM address, and hands over the listing: that wallet is the owner, the
-- row is claimed, and nothing else of it changed.
pub claim_row-Transferred :
    (env : Env) (id : String) (r : Listing) (st st' : State) (new : Listing)
    → IsQuiet env
    → get_listing id st.db ≡ some r
    → claim_row env id r st ≡ (ok new, st')
    → Transferred env id r st new st'
unfolding claim_row claim_listing signed_request get_listing
claim_row-Transferred env id r st st' new quiet found p =
    let a = bind-Passed _ _ st st' new p in
    let (unclaimed, at1) = raise_if-Passed r.claimed _ st a.middle a.value a.first in
    let b = bind-Passed _ _ a.middle st' new a.rest in
    let (evm, at2) =
      raise_if-Passed (not (is_evm_address r.payment_wallet)) _ a.middle b.middle b.value b.first in
    let c = bind-Passed _ _ b.middle st' new b.rest in
    let (accepted, at3) =
      verify-Passed env _ id r.payment_wallet b.middle c.middle c.value c.first in
    let d = bind-Passed _ _ c.middle st' new c.rest in
    let e = write_claim-Passed env id r.payment_wallet d.middle st' new d.rest in
    let moved : d.middle.db ≡ env.between 1 c.middle.db =
      sym (ap (λ (x : Result (Unit {0}) × State). x.1.db) d.first) in
    let same : d.middle.db ≡ st.db =
      moved ∙ quiet 1 c.middle.db ∙ at3 ∙ ap (λ (x : State). x.db) (at2 ∙ at1) in
    let u = update_where_lem id _ _ d.middle.db st'.db new (λ x. refl) e in
    let old : u.old ≡ r = ground (arith, same, u.found) in
    record {
      unclaimed = unclaimed;
      evm_wallet = ground (arith, evm);
      accepted = rw (ap (λ (x : State). x.nonces) (at2 ∙ at1)) at accepted;
      result = u.result ∙ rw old refl;
      stored = u.stored;
    }
