-- ===== src/Imports/Unclaimed.antt =====
-- app/core/imports.py: what every imported row starts as, whatever its record says.
use agent_discovery_board.Prelude.{
  ℕ, String, ◌≡◌, refl, sym, ap, Bool, true, false, ◌&&◌, Option, none, some, arith, if◌then◌else◌,
  or_else,
}
use mathlib.Core.Path.{subst}
use agent_discovery_board.Models.{has_valid_fields}
use agent_discovery_board.Listing.{Listing}
use agent_discovery_board.Models.{
  ModelLibrary, ListingCreate, validate_create, validate_listing_type, validate_payment_wallet,
  unclaimed_import_submitted_by,
}
use agent_discovery_board.Models.Pricing.{is_priced}
use agent_discovery_board.Imports.{
  SourceRecord, resolve_source, import_row, build_import_row, ◌>>=◌,
}

pub record Bound {A B : Type 0} (m : Option A) (f : A → Option B) (b : B) : Type 0 where
  pub value : A
  pub first : m ≡ some value
  pub rest : f value ≡ some b

pub bind-Bound :
    {A B : Type 0} (m : Option A) (f : A → Option B) (b : B) → (m >>= f) ≡ some b → Bound m f b
unfolding ◌>>=◌
bind-Bound none f b e = absurd (ground arith)
bind-Bound (some a) f b e = record { value = a; first = refl; rest = e }

-- An imported row: nobody can sign for its owner, it is no test data, it belongs to a source, and its
-- pricing and its wallet have passed the checks of a POST.
pub record IsImport (source : Option String) (r : SourceRecord) (row : Listing) : Type 0 where
  pub unclaimed : row.claimed ≡ false
  pub nobody : row.submitted_by ≡ unclaimed_import_submitted_by
  pub no_test : row.is_test ≡ false
  pub present : row.missing_from_source_since ≡ none
  pub sourced : row.source ≡ resolve_source source r
  pub wallet : validate_payment_wallet row.payment_wallet ≡ true
  pub priced :
      is_priced row.listing_type row.pricing_model row.pricing_amount row.payment_options ≡ true

-- What the model lets through.
record IsValid (p q : ListingCreate) : Type 0 where
  pub same_owner : q.submitted_by ≡ p.submitted_by
  pub wallet : validate_payment_wallet q.payment_wallet ≡ true
  pub priced : is_priced q.listing_type q.pricing_model q.pricing_amount q.payment_options ≡ true

if-some :
    {A : Type 0} (c : Bool) (a b : A) → (if c then some a else none) ≡ some b → (c ≡ true) × (a ≡ b)
if-some true a b e = (refl, ap (λ o. or_else o a) e)
if-some false a b e = absurd (ground arith)

and-true : (a b : Bool) → (a && b) ≡ true → (a ≡ true) × (b ≡ true)
and-true true b e = (refl, e)
and-true false b e = absurd (ground arith)

validate_create-IsValid :
    (lib : ModelLibrary) (p q : ListingCreate) → validate_create lib p ≡ some q → IsValid p q
unfolding validate_create
validate_create-IsValid lib p q e = go (validate_listing_type p.listing_type) e
  where
    go :
        (t : Option String)
        → elim t [
          | none ↦ none
          | some listing_type ↦
              if has_valid_fields lib p
                && (validate_payment_wallet p.payment_wallet
                    && is_priced listing_type p.pricing_model p.pricing_amount p.payment_options)
              then some (record p { listing_type = listing_type })
              else none
        ]
          ≡ some q
        → IsValid p q
    go none f = absurd (ground arith)
    go (some t) f =
        let (passed, same) = if-some _ (record p { listing_type = t }) q f in
        let (fields, more) = and-true (has_valid_fields lib p) _ passed in
        let (wallet, priced) = and-true (validate_payment_wallet p.payment_wallet) _ more in
        record {
          same_owner = ap (λ (x : ListingCreate). x.submitted_by) (sym same);
          wallet =
              subst (λ (x : ListingCreate). validate_payment_wallet x.payment_wallet ≡ true) same
                wallet;
          priced =
              subst
                (λ (x : ListingCreate).
                  is_priced x.listing_type x.pricing_model x.pricing_amount x.payment_options
                  ≡ true)
                same priced;
        }

-- A row that `build_import_row` returns starts unclaimed, is owned by the address that nobody can sign
-- for, is no test listing and not marked missing, carries the source that was given or else its own,
-- and has a wallet and a pricing that a POST would accept.
pub build_import_row-IsImport :
    (lib : ModelLibrary) (id : String) (source : Option String) (now : ℕ) (r : SourceRecord)
    (row : Listing)
    → build_import_row lib id source now r ≡ some row
    → IsImport source r row
unfolding build_import_row import_row
build_import_row-IsImport lib id source now r row e =
    let a = bind-Bound _ _ row e in
    let b = bind-Bound _ _ row a.rest in
    let c = bind-Bound _ _ row b.rest in
    let d = bind-Bound _ _ row c.rest in
    let f = bind-Bound _ _ row d.rest in
    let g = bind-Bound _ _ row f.rest in
    let h = bind-Bound _ _ row g.rest in
    let k = bind-Bound _ _ row h.rest in
    let same : import_row id now a.value b.value k.value ≡ row = ap (λ o. or_else o row) k.rest in
    let valid = validate_create-IsValid lib _ k.value k.first in
    subst (IsImport source r) same (record {
      unclaimed = refl;
      nobody = valid.same_owner;
      no_test = refl;
      present = refl;
      sourced = sym a.first;
      wallet = valid.wallet;
      priced = valid.priced;
    })
