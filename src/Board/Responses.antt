-- ===== src/Board/Responses.antt =====
-- app/api/routes/listings.py: what a client is shown of a row, and the two handlers that read one.
use agent_discovery_board.Prelude.{
  ℕ, String, Bool, true, Option, none, some, List, if◌then◌else◌, Json,
}
use agent_discovery_board.Errors.{api_error, no_template}
use agent_discovery_board.Listing.{Listing}
use agent_discovery_board.Activity.{last_activity_at, is_stale}
use agent_discovery_board.Maintenance.{expires_at}
use agent_discovery_board.Models.Pricing.{price_summary}
use agent_discovery_board.ScoreClient.{Badge}
use agent_discovery_board.ScoreClient.Page.{badge_agent}
use agent_discovery_board.Verifier.{Snapshot}
use agent_discovery_board.Board.Monad.{Env, Run, pure, raise, escape, ◌>>=◌, get_or_404}
use agent_discovery_board.Models.{ListingCreate}
use agent_discovery_board.Board.Create.{create_listing}
use agent_discovery_board.Board.Facts.{FactLibrary, ListingNextAction, next_actions, networks}

-- CompactListingResponse
pub record Compact : Type 0 where
  pub id : String
  pub name : String
  pub endpoint_url : String
  pub price : Option String
  pub networks : List String
  pub task_categories : List String
  pub claimed : Bool

unfoldable pub to_compact_response : Listing → Compact
unfolding networks price_summary
to_compact_response row = record {
  id = row.id;
  name = row.name;
  endpoint_url = row.endpoint_url;
  price = price_summary row;
  networks = networks row;
  task_categories = row.task_categories;
  claimed = row.claimed;
}

-- ListingResponse
pub record Response : Type 0 where
  pub row : Listing
  pub test : Bool
  pub expires_at : Option ℕ
  pub last_activity_at : ℕ
  pub stale : Bool
  pub badge : Option Badge
  pub next_actions : List ListingNextAction

-- What the listings are shown with: what `get_badge` gives for an agent, the facts of the verifier, and
-- STALE_AFTER_DAYS and TEST_LISTING_TTL_HOURS.
pub record View : Type 0 where
  pub facts : FactLibrary
  pub badge : String → Option Badge
  pub snapshot : Snapshot
  pub stale_after : ℕ
  pub test_ttl : ℕ

abbrev pub or_escape : {A : Type 0} → Option A → Run A
or_escape none = escape
or_escape (some a) = pure a

module _ (view : View) where
  -- A test listing has no badge.
  abbrev pub badge_of : Option String → Option Badge
  badge_of none = none
  badge_of (some agent) = view.badge agent

  -- Badge(**raw_badge) raises where a value has not the type of its field.
  abbrev pub has_typed_badge : Option Badge → Bool
  has_typed_badge none = true
  has_typed_badge (some raw_badge) = view.facts.is_badge raw_badge

  abbrev pub response_of : (now : ℕ) → Listing → Option (List ListingNextAction) → Option Response
  response_of now row none = none
  response_of now row (some actions) = some (record {
    row = row;
    test = row.is_test;
    expires_at = if row.is_test then some (expires_at view.test_ttl row.created_at) else none;
    last_activity_at = last_activity_at row;
    stale = is_stale view.stale_after now row;
    badge = badge_of (badge_agent row);
    next_actions = actions;
  })

  -- `_to_response`; `none` where the badge or `_next_actions` raises.
  unfoldable pub to_response : (now : ℕ) → Listing → Option Response
  unfolding next_actions badge_agent is_stale expires_at
  to_response now row =
      let actions = next_actions view.facts view.snapshot row in
      response_of now row (if has_typed_badge (badge_of (badge_agent row)) then actions else none)

  -- GET /listings/{id}
  unfoldable pub get_listing : Env → String → Run Response
  unfolding to_response
  get_listing env id = do row ← get_or_404 id; or_escape (to_response env.wall row)

  -- POST /listings: the row of `create_listing`, as a response. The other handlers that return a row end
  -- in the same way.
  unfoldable pub post_listing : Env → ListingCreate → Run Response
  unfolding to_response create_listing
  post_listing env body = do
    created ← create_listing env body
    or_escape (to_response env.wall created)

-- TemplateResponse
pub record Template : Type 0 where
  pub listing_id : String
  pub output_schema : Json
  pub verification : Option Json
  pub template_url : Option String

abbrev template_of : String → Listing → Run Template
template_of id row = elim row.output_schema [
  | none ↦ raise (api_error 404 no_template)
  | some schema ↦ pure (record {
    listing_id = id;
    output_schema = schema;
    verification = row.verification;
    template_url = row.template_url;
  })
]

-- GET /listings/{id}/template
unfoldable pub get_template : String → Run Template
get_template id = do row ← get_or_404 id; template_of id row
