-- ===== src/Models/Pricing.antt =====
-- app/core/models.py: `check_pricing_consistency`, and `_price_summary` of
-- app/api/routes/listings.py, which shows the price of a row.
use Prim.Native.String
use agent_discovery_board.Prelude.{
  String, ◌≡◌, refl, ap, ◌≢◌, inl, inr, Bool, true, false, ◌&&◌, Option, none, some, List, [], ◌∷◌,
  arith, ◌==◌, eq_iff, if◌then◌else◌, Bool-cases, is_none, is_some, is_in,
}
use agent_discovery_board.Listing.{
  PricingModel, free, per_call, subscription, other, PaymentOption, Listing,
}

-- PRICING_NOT_APPLICABLE_TYPES
unfoldable pub has_no_pricing : String → Bool
has_no_pricing listing_type = is_in listing_type ("announcement" ∷ "notice" ∷ [])

abbrev is_empty : List PaymentOption → Bool
is_empty [] = true
is_empty (o ∷ os) = false

-- The cases in which `check_pricing_consistency` does not raise.
unfoldable pub is_priced : String → Option PricingModel → Option String → List PaymentOption → Bool
unfolding has_no_pricing
is_priced listing_type model amount options =
    if has_no_pricing listing_type
    then is_none model && is_none amount && is_empty options
    else elim model [
      | none ↦ is_none amount
      | some free ↦ is_none amount
      | some per_call ↦ is_some amount
      | some subscription ↦ is_some amount
      | some other ↦ is_some amount
    ]

infixr 66 ◌⊹◌
abbrev ◌⊹◌ : String → String → String
◌⊹◌ = String.◌++◌

abbrev with_unit : String → Option String → String
with_unit amount none = amount
with_unit amount (some unit) = if unit == "" then amount else amount ⊹ " " ⊹ unit

-- The first payment option that has an amount.
unfoldable pub option_price : List PaymentOption → Option String
option_price [] = none
option_price (o ∷ os) =
    let rest = option_price os in
    elim o.amount [ none ↦ rest | some amount ↦ some (with_unit amount o.unit) ]

abbrev is_free : Option PricingModel → Bool
is_free (some free) = true
is_free _ = false

abbrev amount_or : Option String → Option String → Option String
amount_or none otherwise = otherwise
amount_or (some amount) otherwise = if amount == "" then otherwise else some amount

-- `_price_summary`
unfoldable pub price_summary : Listing → Option String
unfolding option_price
price_summary row =
    if is_free row.pricing_model
    then some "free"
    else amount_or row.pricing_amount (option_price row.payment_options)

-- The price that the pricing fields of a row mean: none for an announcement or a notice, else
-- "free", else the amount of the model, else what its payment options ask.
unfoldable pub meant_price : Listing → Option String
meant_price row = if has_no_pricing row.listing_type then none else elim row.pricing_model [
  | none ↦ option_price row.payment_options
  | some free ↦ some "free"
  | some _ ↦ row.pricing_amount
]

filled_amount :
    (amount : String) (otherwise : Option String)
    → amount ≢ ""
    → amount_or (some amount) otherwise ≡ some amount
filled_amount amount otherwise filled = elim (Bool-cases (amount == "")) [
  | inl e ↦ absurd (filled ((eq_iff amount "").0 e))
  | inr e ↦ rw e refl
]

priced_lem :
    (no : Bool) (m : Option PricingModel) (a : Option String) (os : List PaymentOption)
    → (if no then is_none m && is_none a && is_empty os else elim m [
      | none ↦ is_none a
      | some free ↦ is_none a
      | some per_call ↦ is_some a
      | some subscription ↦ is_some a
      | some other ↦ is_some a
    ])
      ≡ true
    → a ≢ some ""
    → (if is_free m then some "free" else amount_or a (option_price os)) ≡ (
        if no
        then none
        else elim m [ none ↦ option_price os | some free ↦ some "free" | some _ ↦ a ])
unfolding option_price
priced_lem true none none [] fine filled = refl
priced_lem true none none (o ∷ os) fine filled = absurd (ground arith)
priced_lem true none (some a) os fine filled = absurd (ground arith)
priced_lem true (some m) a os fine filled = absurd (ground arith)
priced_lem false none none os fine filled = refl
priced_lem false none (some a) os fine filled = absurd (ground arith)
priced_lem false (some free) a os fine filled = refl
priced_lem false (some per_call) none os fine filled = absurd (ground arith)
priced_lem false (some per_call) (some a) os fine filled =
    filled_amount a (option_price os) (λ e. filled (ap some e))
priced_lem false (some subscription) none os fine filled = absurd (ground arith)
priced_lem false (some subscription) (some a) os fine filled =
    filled_amount a (option_price os) (λ e. filled (ap some e))
priced_lem false (some other) none os fine filled = absurd (ground arith)
priced_lem false (some other) (some a) os fine filled =
    filled_amount a (option_price os) (λ e. filled (ap some e))

-- A row whose pricing is consistent and whose amount is not the empty text shows the price that its
-- fields mean: no amount is shown for a free service or an announcement, and a paid model's amount
-- is never hidden by the payment options.
pub price_summary-meant :
    (row : Listing)
    → is_priced row.listing_type row.pricing_model row.pricing_amount row.payment_options ≡ true
    → row.pricing_amount ≢ some ""
    → price_summary row ≡ meant_price row
unfolding is_priced price_summary meant_price option_price
price_summary-meant row fine filled =
    priced_lem (has_no_pricing row.listing_type) row.pricing_model row.pricing_amount
      row.payment_options fine filled
