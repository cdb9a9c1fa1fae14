-- ===== src/ScoreClient/Page.antt =====
-- app/api/routes/listings.py with app/core/score_client.py: the badges of a page of results, which
-- `asyncio.gather` looks up together: every lookup reads the cache before the first call returns.
use agent_discovery_board.Prelude.{
  ℕ, ◌+◌, String, ◌≡◌, refl, true, false, Option, none, some, List, [], ◌∷◌, arith, ◌==◌, is_none,
  if◌then◌else◌, length, lookup, All,
}
use agent_discovery_board.Listing.{Listing}
use agent_discovery_board.ScoreClient.{Cache, before_call}

-- The agent whose badge `_to_response` asks for; a test listing has none.
unfoldable pub badge_agent : Listing → Option String
badge_agent r = if r.is_test then none else (elim r.verification_agent_id [
  | none ↦ some r.submitted_by
  | some id ↦ some (if id == "" then r.submitted_by else id)
])

-- How many calls the rows of a page pay for.
unfoldable pub page_calls : ℕ → ℕ → Cache → List Listing → ℕ
unfolding badge_agent before_call
page_calls ttl now cache [] = 0
page_calls ttl now cache (r ∷ rows) =
    (if is_none (before_call true ttl (badge_agent r) now cache) then 1 else 0)
    + page_calls ttl now cache rows

-- A page pays a call for each of its rows of an agent that is not cached, though one would do.
pub page_pays_each :
    (ttl now : ℕ) (cache : Cache) (agent : String) (rows : List Listing)
    → agent == "" ≡ false
    → lookup agent cache ≡ none
    → All (λ r. badge_agent r ≡ some agent) rows
    → page_calls ttl now cache rows ≡ length rows
unfolding page_calls before_call
page_pays_each ttl now cache agent [] named new h = refl
page_pays_each ttl now cache agent (r ∷ rows) named new (mine, h) =
    let rest = page_pays_each ttl now cache agent rows named new h in rw mine (ground arith)
