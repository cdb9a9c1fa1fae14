-- ===== src/Board/Typed.antt =====
-- app/api/routes/listings.py with app/core/verifier_info.py: the facts of the verifier's documents in a
-- response, whose fields have types that the documents' parsers do not check.
use agent_discovery_board.Prelude.{
  ℕ, ◌≡◌, refl, sym, ◌∙◌, inl, inr, ◌↔◌, ◌⊎◌, Bool, true, false, ◌&&◌, Option, none, some, List,
  arith, is_some, Json, Bool-cases,
}
use agent_discovery_board.Listing.{Listing}
use agent_discovery_board.Verifier.{Snapshot}
use agent_discovery_board.Board.Facts.{
  FactLibrary, ListingNextAction, verify_action, with_verify, actions_for, next_actions,
}
use agent_discovery_board.ScoreClient.Page.{badge_agent}
use agent_discovery_board.Board.Responses.{
  View, badge_of, has_typed_badge, response_of, to_response,
}
use agent_discovery_board.Board.FactTypes.{is_typed, verify_typed}

is_some-response_of :
    (view : View) (now : ℕ) (row : Listing) (actions : Option (List ListingNextAction))
    → is_some (response_of view now row actions) ≡ is_some actions
is_some-response_of view now row none = refl
is_some-response_of view now row (some actions) = refl

is_some-with_verify :
    (lib : FactLibrary) (row : Listing) (verify : Option ListingNextAction)
    → is_some (with_verify lib row verify) ≡ is_some verify
is_some-with_verify lib row none = refl
is_some-with_verify lib row (some verify) = refl

-- A row without an output schema needs no fact of the verifier.
abbrev schema_served : Bool → Option Json → Bool
schema_served typed none = true
schema_served typed (some schema) = typed

is_some-next_actions :
    (lib : FactLibrary) (info : Snapshot) (row : Listing) (schema : Option Json)
    → is_some (actions_for lib info row schema) ≡ schema_served (is_typed lib info) schema
is_some-next_actions lib info row none = refl
is_some-next_actions lib info row (some schema) =
    is_some-with_verify lib row (verify_action lib info schema row)
    ∙ verify_typed lib info schema row

is_some-to_response :
    (view : View) (now : ℕ) (row : Listing)
    → is_some (to_response view now row) ≡ (
        has_typed_badge view (badge_of view (badge_agent row))
        && schema_served (is_typed view.facts view.snapshot) row.output_schema)
unfolding to_response next_actions
is_some-to_response view now row =
    is_some-response_of view now row _
    ∙ elim (Bool-cases (has_typed_badge view (badge_of view (badge_agent row)))) [
      | inl e ↦ rw e (is_some-next_actions view.facts view.snapshot row row.output_schema)
      | inr e ↦ rw e refl
    ]

-- The badge that a row is shown with, if any, has the types of its fields.
unfoldable pub badge_fits : View → Listing → Bool
unfolding badge_agent
badge_fits view row = has_typed_badge view (badge_of view (badge_agent row))

served_cases :
    (typed : Bool) (schema : Option Json)
    → (schema_served typed schema ≡ true) ↔ ((is_some schema ≡ false) ⊎ (typed ≡ true))
served_cases typed none = (λ h. inl refl, λ h. refl)
served_cases typed (some schema) = (λ h. inr h, λ h. ground (arith, h))

-- A listing is shown, and not a 500, exactly if its badge, where it has one, has the types of its fields,
-- and it has no output schema or the verifier's facts have the types of theirs. Of a payment, unless it
-- counts as false, these are: a price and a currency of any type, a text as its endpoint unless that
-- counts as false, a text or null as its method, where it has one, and as its protocol, and a list of
-- texts as its networks; of a free path, unless it counts as false, an allowance per day and the fields
-- that pydantic takes.
pub shown_iff_typed :
    (view : View) (now : ℕ) (row : Listing)
    → (is_some (to_response view now row) ≡ true) ↔ (
        (badge_fits view row ≡ true)
        × ((is_some row.output_schema ≡ false) ⊎ (is_typed view.facts view.snapshot ≡ true)))
unfolding badge_fits
shown_iff_typed view now row =
    let shown = is_some-to_response view now row in
    let cases = served_cases (is_typed view.facts view.snapshot) row.output_schema in
    (
      λ h. let both = sym shown ∙ h in (ground (arith, both), cases.0 (ground (arith, both))),
      λ (fits, served). shown ∙ (let s = cases.1 served in rw (fits, s) refl),
    )
