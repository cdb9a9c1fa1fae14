-- ===== src/Stablecoins.antt =====
-- app/core/stablecoins.py, and the condition on payment options in `_filter_conditions` of
-- app/core/db.py. An amount is counted in units of 10 ^ -18, the last digit that it may have.
use Prim.Native.Nat.{◌^◌}
use Prim.Native.Char.{code}
use Prim.Native.String
use agent_discovery_board.Prelude.{
  ℕ, ◌+◌, ◌-◌, ◌*◌, String, Bool, true, false, ◌&&◌, ◌||◌, Option, none, some, List, [], ◌∷◌, map,
  ◌==◌, leb, is_none, any, str_len, is_in, lower,
}
use agent_discovery_board.Listing.{PaymentOption}
use agent_discovery_board.Models.Shapes.{chomp, split_at}

-- _USD_STABLECOINS
abbrev pub usd_stablecoins : List (String × String)
usd_stablecoins =
    ("eip155:8453", "0x833589fCD6eDb6E08f4c7C32D4f71b54bdA02913")
    ∷ ("eip155:1", "0xA0b86991c6218b36c1d19D4a2e9Eb0cE3606eB48")
    ∷ ("solana:5eykt4UsFv8P8NJdTREpY1vzqKqZKvdp", "EPjFWdd5AufqSSqeM2qN1xzybapC8G4wEGGkZwyTDt1v")
    ∷ []

infixr 66 ◌⊹◌
abbrev ◌⊹◌ : String → String → String
◌⊹◌ = String.◌++◌

abbrev pair_key : String → String → String
pair_key network asset = network ⊹ "|" ⊹ lower asset

unfoldable pub stablecoin_keys : List String
stablecoin_keys = map (λ (p : String × String). pair_key p.0 p.1) usd_stablecoins

unfoldable pub is_usd_stablecoin : String → String → Bool
unfolding stablecoin_keys
is_usd_stablecoin network asset = is_in (pair_key network asset) stablecoin_keys

-- The number that decimal digits spell, after `n`.
unfoldable pub digits : ℕ → String → ℕ
digits n String.[] = n
digits n (String.◌∷◌ c s) = digits (n * 10 + (code c - b'0')) s

-- (amount)::numeric, of a text that `_AMOUNT_RE` has let through
unfoldable pub scaled : String → ℕ
unfolding digits
scaled amount =
    let (whole, fraction) = split_at b'.' (chomp amount) in
    digits 0 whole * 10 ^ 18
    + elim fraction [ none ↦ 0 | some s ↦ digits 0 s * 10 ^ (18 - str_len s) ]

-- The price cap holds for a stablecoin's amount only.
unfoldable pub is_affordable : Option ℕ → PaymentOption → Bool
unfolding scaled
is_affordable none o = true
is_affordable (some max_price) o =
    is_usd_stablecoin o.network o.asset
    && elim o.amount [ none ↦ false | some a ↦ leb (scaled a) max_price ]

abbrev on_network : Option String → PaymentOption → Bool
on_network none o = true
on_network (some n) o = o.network == n

-- One option meets both conditions; without a condition none is asked for.
unfoldable pub has_option : Option String → Option ℕ → List PaymentOption → Bool
unfolding is_affordable
has_option network max_price options =
    (is_none network && is_none max_price)
    || any (λ o. on_network network o && is_affordable max_price o) options
