-- ===== src/Models/Payment.antt =====
-- app/core/models.py: `PaymentOption`, checked for the namespace of its network.
use agent_discovery_board.Models.Shapes.{
  chomp, is_digit, is_lower, is_upper, split_at, is_evm_address, is_slug, is_amount,
  is_base58_pubkey, index_of, base58_alphabet,
}
use Prim.Native.Char.{code}
use agent_discovery_board.Prelude.{
  ℕ, String, Bool, true, false, ◌&&◌, ◌||◌, Option, none, some, ◌==◌, leb, eqb, if◌then◌else◌,
  is_none, is_some, or_else, str_len, all_chars,
}
use agent_discovery_board.Listing.{PaymentOption}

abbrev namespace_char : ℕ → Bool
namespace_char c = eqb c b'-' || is_lower c || is_digit c

abbrev reference_char : ℕ → Bool
reference_char c = eqb c b'-' || eqb c b'_' || is_lower c || is_upper c || is_digit c

abbrev is_reference : Option String → Bool
is_reference none = false
is_reference (some s) = leb 1 (str_len s) && leb (str_len s) 32 && all_chars reference_char s

-- _CAIP2_RE
unfoldable pub is_valid_caip2_id : String → Bool
unfolding split_at chomp
is_valid_caip2_id value =
    let (namespace, reference) = split_at b':' (chomp value) in
    leb 3 (str_len namespace)
    && leb (str_len namespace) 8
    && all_chars namespace_char namespace
    && is_reference reference

abbrev is_number : String → Bool
is_number String.[] = false
is_number (String.◌∷◌ c s) =
    leb b'1' (code c) && leb (code c) b'9' && leb (str_len s) 31 && all_chars is_digit s

-- _EIP155_REFERENCE_RE and _SOLANA_REFERENCE_RE, for the two supported namespaces.
unfoldable pub is_chain_reference : String → String → Bool
unfolding index_of
is_chain_reference namespace reference =
    if namespace == "eip155"
    then is_number (chomp reference)
    else namespace == "solana"
      && eqb (str_len (chomp reference)) 32
      && all_chars (λ c. is_some (index_of 0 c base58_alphabet)) (chomp reference)

-- `_validate_network_address`
unfoldable pub is_network_address : String → String → Bool
is_network_address namespace value =
    if namespace == "eip155"
    then is_evm_address value
    else if namespace == "solana"
    then is_base58_pubkey value
    else true

-- `PaymentOption._check`
unfoldable pub is_payment_option : PaymentOption → Bool
unfolding is_valid_caip2_id is_chain_reference is_network_address
is_payment_option o =
    let (namespace, reference) = split_at b':' o.network in
    is_valid_caip2_id o.network
    && is_chain_reference namespace (or_else reference "")
    && is_network_address namespace o.asset
    && is_network_address namespace o.pay_to
    && elim o.amount [ none ↦ true | some a ↦ is_amount a ]
    && elim o.unit [ none ↦ true | some u ↦ is_slug u ]
    && (is_none o.unit || is_some o.amount)
