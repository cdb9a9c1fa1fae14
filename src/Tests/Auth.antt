-- ===== src/Tests/Auth.antt =====
-- Signed requests at concrete inputs.
use agent_discovery_board.Prelude.{
  ◌+◌, ◌-◌, ◌*◌, ◌≡◌, refl, ◌↔◌, some, [], ◌∷◌, arith, lower, pos, null, get_field,
}
use agent_discovery_board.Tests.Data.{alice, libraries}
use agent_discovery_board.Errors.{ok}
use agent_discovery_board.WalletAuth.{
  update_listing, Request, Header, second, to_int, parse_header, verify_header, verify_wallet_auth,
  claim_nonce, prune_expired_nonces, check_signer,
}
use agent_discovery_board.WalletAuth.Replay.{Attempt, run, attempt, refusal, no_replay}
use agent_discovery_board.WalletAuth.Gaps.{replay_gap}
use agent_discovery_board.WalletAuth.Sound.{IsAccepted, accepted_iff}

abbrev asked : Request
asked = record {
  header = some alice;
  action = update_listing;
  listing_id = "a";
  submitted_by = alice;
  body = some null;
}

abbrev header : Header
header = record { signature = alice; timestamp = pos 1000; nonce = "n1" }

abbrev once : Attempt
once = record { wall = 1000000000; mono = 5000000; request = asked }

abbrev again : Attempt
again = record { wall = 1010000000; mono = 15000000; request = asked }

no_replay_example :
    (attempt libraries 300000000 again
      (run libraries 300000000 (again ∷ []) (attempt libraries 300000000 once []).1)).0
    ≡ refusal libraries 300000000 again header
unfolding parse_header to_int get_field verify_wallet_auth verify_header claim_nonce
    prune_expired_nonces check_signer lower
no_replay_example =
    no_replay libraries 300000000 once again header header (again ∷ []) [] refl refl refl
      (omega arith, tt) (omega arith) refl refl

accepted_iff_example :
    (verify_wallet_auth libraries 300000000 1000000000 5000000 asked []).0 ≡ ok tt
    ↔ IsAccepted libraries 300000000 1000000000 5000000 asked []
accepted_iff_example = accepted_iff libraries 300000000 1000000000 5000000 asked []

replay_gap_example :
    let (out, seen) =
      verify_wallet_auth libraries (300 * second) ((1000 - 300) * second) 5000000 asked [] in
    let (again, _) =
      verify_wallet_auth libraries
        (300 * second)
        ((1000 - 300) * second + (300 * second * 2 + 500000))
        (5000000 + (300 * second * 2 + 500000))
        asked
        seen in
    (out ≡ ok tt) × (again ≡ ok tt)
unfolding parse_header to_int get_field
replay_gap_example =
    replay_gap libraries 300 1000 500000 5000000 asked header alice refl refl refl refl
      (omega arith) (omega arith) (omega arith)
