-- ===== src/Board/Answers.antt =====
-- app/api/routes/listings.py: how a POST ends, from its rate limit to its response.
use agent_discovery_board.Prelude.{
  ℕ, ◌≡◌, refl, sym, ap, ◌⊎◌, inl, inr, true, false, Option, none, some, arith, ◌==◌, Bool-cases,
  is_some, any,
}
use mathlib.Core.Path.{subst}
use agent_discovery_board.Errors.{Result, ok, err, crash}
use agent_discovery_board.RateLimit.{Outcome, served, daily_limit, too_many, check}
use agent_discovery_board.Listing.{Listing}
use agent_discovery_board.Models.{ListingCreate, validate_create}
use agent_discovery_board.Store.{guarded_type, insert, clash, key_of}
use agent_discovery_board.Store
use agent_discovery_board.Board.Create.{
  refuse_found, valid_or_422, run_purge, refuse_duplicate, insert_row, new_row, create_valid,
  create_listing, duplicate_of,
}
use agent_discovery_board.Board.Monad.{
  State, Env, ◌>>=◌, raise_limit, rate_limit_creation, others_run,
}
use agent_discovery_board.Board.Ends.{EndsAt, Ends, Any, bind-Ends, raise_if-Ends}
use agent_discovery_board.Board.Responses.{View, Response, or_escape, to_response, post_listing}
use agent_discovery_board.Board.FactTypes.{is_typed}
use agent_discovery_board.Board.Typed.{badge_fits, shown_iff_typed}

module _ (Q : Type 0) where
  raise_limit-Ends : (out : Outcome) → Ends Any Q (raise_limit out)
  raise_limit-Ends served st = tt
  raise_limit-Ends (daily_limit n) st = tt
  raise_limit-Ends (too_many n) st = tt

  rate_limit_creation-Ends : (env : Env) → Ends Any Q (rate_limit_creation env)
  unfolding rate_limit_creation
  rate_limit_creation-Ends env st =
      raise_limit-Ends (check st.create_limiter env.client env.mono env.wall).1 _

  refuse_duplicate-Ends : (env : Env) (p : ListingCreate) → Ends Any Q (refuse_duplicate env p)
  unfolding refuse_duplicate
  refuse_duplicate-Ends env p st = elim (Bool-cases (p.listing_type == guarded_type)) [
    | inl e ↦ rw e (found (duplicate_of env p st.db))
    | inr e ↦ rw e tt
  ]
    where
      found : (o : Option Listing) → EndsAt Any Q (refuse_found o st).0
      found none = tt
      found (some r) = tt

  valid-Ends : {A : Type 0} (o : Option A) → Ends (λ a. o ≡ some a) Q (valid_or_422 o)
  valid-Ends none st = tt
  valid-Ends (some a) st = refl

-- The row that a POST writes.
unfoldable pub stored_row : Env → ListingCreate → Listing
unfolding new_row
stored_row env p = record (new_row env.new_id env.wall p) {
  endpoint_key = key_of env.urls p.endpoint_url;
}

module _ (view : View) (env : Env) (body : ListingCreate) where
  abbrev IsMade : Listing → Type 0
  IsMade r =
      (p : ListingCreate) × (validate_create env.models body ≡ some p) × (r ≡ stored_row env p)

  abbrev Q : Type 0
  Q =
      (p : ListingCreate) × (validate_create env.models body ≡ some p)
      × ((env.storable (new_row env.new_id env.wall p) ≡ false)
          ⊎ (to_response view env.wall (stored_row env p) ≡ none))

  insert_row-Ends :
      (p : ListingCreate)
      → validate_create env.models body ≡ some p
      → Ends (λ r. r ≡ stored_row env p) Q (insert_row env p)
  unfolding insert_row stored_row Store.create_listing insert ◌>>=◌
  insert_row-Ends p valid st = elim (Bool-cases (env.storable (new_row env.new_id env.wall p))) [
    | inr refused ↦ rw refused (p, valid, inl refused)
    | inl taken ↦ elim (Bool-cases (any (clash (stored_row env p)) st.db.listings)) [
      | inl e ↦ rw (taken, e) tt
      | inr e ↦ rw (taken, e) refl
    ]
  ]

  create_valid-Ends :
      (p : ListingCreate)
      → validate_create env.models body ≡ some p
      → Ends (λ r. r ≡ stored_row env p) Q (create_valid env p)
  unfolding create_valid run_purge
  create_valid-Ends p valid = bind-Ends Q Any _ _ _ (raise_if-Ends Q _ _) (λ _ _.
      bind-Ends Q Any _ (others_run env 0) _ (λ st. tt)
        (λ _ _.
          bind-Ends Q Any _ (run_purge env) _ (λ st. tt)
            (λ _ _.
              bind-Ends Q Any _ (others_run env 1) _ (λ st. tt)
                (λ _ _. bind-Ends Q Any _ _ _ (refuse_duplicate-Ends Q env p) (λ _ _.
                  bind-Ends Q Any _ (others_run env 2) _ (λ st. tt)
                    (λ _ _. insert_row-Ends p valid))))))

  answer-Ends :
      (p : ListingCreate)
      → validate_create env.models body ≡ some p
      → (o : Option Response) → to_response view env.wall (stored_row env p) ≡ o
      → Ends Any Q (or_escape o)
  answer-Ends p valid none e st = (p, valid, inr e)
  answer-Ends p valid (some r) e st = tt

  create_listing-Ends : Ends IsMade Q (create_listing env body)
  unfolding create_listing
  create_listing-Ends = bind-Ends Q Any _ _ _ (rate_limit_creation-Ends Q env) (λ _ _.
      bind-Ends Q _ _ _ _ (valid-Ends Q (validate_create env.models body))
        (λ p valid. made p valid (create_valid-Ends p valid)))
    where
      made :
          (p : ListingCreate)
          → validate_create env.models body ≡ some p
          → Ends (λ r. r ≡ stored_row env p) Q (create_valid env p)
          → Ends IsMade Q (create_valid env p)
      made p valid h st = weaken (create_valid env p st).0 (h st)
        where
          weaken : (r : Result Listing) → EndsAt (λ r. r ≡ stored_row env p) Q r → EndsAt IsMade Q r
          weaken (ok r) e = (p, valid, e)
          weaken (err x) e = tt
          weaken crash e = e

  post_listing-Ends : Ends Any Q (post_listing view env body)
  unfolding post_listing
  post_listing-Ends = bind-Ends Q _ _ _ _ create_listing-Ends (λ r (p, valid, e).
      answer-Ends p valid (to_response view env.wall r) (ap (to_response view env.wall) (sym e)))

pub not_served :
    (view : View) (now : ℕ) (row : Listing)
    → to_response view now row ≡ none
    → (badge_fits view row ≡ false)
      ⊎ ((is_some row.output_schema ≡ true) × (is_typed view.facts view.snapshot ≡ false))
not_served view now row e =
    let served = (shown_iff_typed view now row).1 in
    let no : is_some (to_response view now row) ≡ false = ap is_some e in
    elim (Bool-cases (badge_fits view row)) [
      | inr bad ↦ inl bad
      | inl fits ↦ elim (Bool-cases (is_some row.output_schema)) [
        | inr plain ↦ absurd (ground (arith, no, served (fits, inl plain)))
        | inl schema ↦ elim (Bool-cases (is_typed view.facts view.snapshot)) [
          | inl typed ↦ absurd (ground (arith, no, served (fits, inr typed)))
          | inr untyped ↦ inr (schema, untyped)
        ]
      ]
    ]

-- A POST, from its rate limit to its response and also where other requests win the race to a unique
-- index, ends in an exception that is no ApiError only if its body is valid and PostgreSQL does not take
-- the values of its row, or the row's badge has a value of another type than its field, or the row
-- has an output schema and a fact of the verifier is missing or not of its type.
pub post_listing_crash :
    (view : View) (env : Env) (body : ListingCreate) (st : State)
    → (post_listing view env body st).0 ≡ crash
    → (p : ListingCreate) × (validate_create env.models body ≡ some p)
      × ((env.storable (new_row env.new_id env.wall p) ≡ false)
          ⊎ ((badge_fits view (stored_row env p) ≡ false)
              ⊎ ((is_some p.output_schema ≡ true) × (is_typed view.facts view.snapshot ≡ false))))
unfolding stored_row
post_listing_crash view env body st e =
    why (subst (EndsAt Any (Q view env body)) e (post_listing-Ends view env body st))
  where
    why :
        Q view env body
        → (p : ListingCreate) × (validate_create env.models body ≡ some p)
          × ((env.storable (new_row env.new_id env.wall p) ≡ false)
              ⊎ ((badge_fits view (stored_row env p) ≡ false)
                  ⊎ ((is_some p.output_schema ≡ true)
                      × (is_typed view.facts view.snapshot ≡ false))))
    why (p, valid, inl refused) = (p, valid, inl refused)
    why (p, valid, inr unshown) =
        (p, valid, inr (not_served view env.wall (stored_row env p) unshown))
