-- ===== src/Models/Shapes.antt =====
-- app/core/models.py: the regular expressions, as tests. With `match`, a final `$` also matches
-- before one newline at the end of the text, which `chomp` takes off.
use Prim.Native.Char.{code}
use agent_discovery_board.Prelude.{
  ℕ, zero, suc, ◌+◌, ◌*◌, ◌/◌, String, Bool, true, false, ◌&&◌, ◌||◌, Option, none, some, ◌==◌, leb,
  eqb, if◌then◌else◌, is_some, or_else, str_len, all_chars, any_char,
}

unfoldable pub chomp : String → String
chomp String.[] = ""
chomp (String.◌∷◌ c s) = if eqb (code c) 10 && s == "" then "" else String.◌∷◌ c (chomp s)

abbrev pub is_digit : ℕ → Bool
is_digit c = leb b'0' c && leb c b'9'

abbrev pub is_lower : ℕ → Bool
is_lower c = leb b'a' c && leb c b'z'

abbrev pub is_upper : ℕ → Bool
is_upper c = leb b'A' c && leb c b'Z'

abbrev pub is_hex : ℕ → Bool
is_hex c = is_digit c || (leb b'a' c && leb c b'f') || (leb b'A' c && leb c b'F')

-- _CONTROL_CHARS
unfoldable pub has_control_chars : String → Bool
has_control_chars s =
    any_char (λ c. leb c 8 || eqb c 0xb || eqb c 0xc || (leb 0xe c && leb c 0x1f) || eqb c 0x7f) s

-- The text up to the first character with this code, and the text after it.
unfoldable pub split_at : ℕ → String → String × Option String
split_at sep String.[] = ("", none)
split_at sep (String.◌∷◌ c s) =
    let rest = split_at sep s in
    if eqb (code c) sep then ("", some s) else (String.◌∷◌ c rest.0, rest.1)

abbrev is_address_body : String → Bool
is_address_body (String.◌∷◌ a (String.◌∷◌ b rest)) =
    eqb (code a) b'0' && eqb (code b) b'x' && eqb (str_len rest) 40 && all_chars is_hex rest
is_address_body _ = false

-- _ADDRESS_RE
unfoldable pub is_evm_address : String → Bool
unfolding chomp
is_evm_address value = is_address_body (chomp value)

abbrev slug_char : ℕ → Bool
slug_char c = is_lower c || is_digit c || eqb c b'_' || eqb c b'-'

abbrev is_slug_body : String → Bool
is_slug_body String.[] = false
is_slug_body (String.◌∷◌ c s) = is_lower (code c) && leb (str_len s) 49 && all_chars slug_char s

-- _LISTING_TYPE_RE and _UNIT_RE
unfoldable pub is_slug : String → Bool
is_slug value = is_slug_body (chomp value)

abbrev is_whole : String → Bool
is_whole String.[] = false
is_whole (String.◌∷◌ c s) =
    (eqb (code c) b'0' && s == "")
    || (leb b'1' (code c) && leb (code c) b'9' && all_chars is_digit s)

abbrev is_fraction : Option String → Bool
is_fraction none = true
is_fraction (some s) = leb 1 (str_len s) && leb (str_len s) 18 && all_chars is_digit s

-- _AMOUNT_RE
unfoldable pub is_amount : String → Bool
unfolding chomp split_at
is_amount value =
    let (whole, fraction) = split_at b'.' (chomp value) in is_whole whole && is_fraction fraction

-- _BASE58_ALPHABET
abbrev pub base58_alphabet : String
base58_alphabet = "123456789ABCDEFGHJKLMNPQRSTUVWXYZabcdefghijkmnopqrstuvwxyz"

-- _BASE58_ALPHABET.index(char), counted from `i`
unfoldable pub index_of : ℕ → ℕ → String → Option ℕ
index_of i c String.[] = none
index_of i c (String.◌∷◌ d s) = if eqb (code d) c then some i else index_of (suc i) c s

abbrev is_base58 : ℕ → Bool
is_base58 c = is_some (index_of 0 c base58_alphabet)

unfoldable pub base58_number : ℕ → String → ℕ
base58_number n String.[] = n
base58_number n (String.◌∷◌ c s) =
    base58_number (n * 58 + or_else (index_of 0 (code c) base58_alphabet) 0) s

-- (n.bit_length() + 7) // 8, the number of bytes of `n`, on fuel: one byte a round.
unfoldable pub byte_length : ℕ → ℕ → ℕ
byte_length zero n = 0
byte_length (suc fuel) n = let rest = byte_length fuel (n / 256) in if eqb n 0 then 0 else suc rest

-- len(value) - len(value.lstrip("1"))
unfoldable pub leading_ones : String → ℕ
leading_ones String.[] = 0
leading_ones (String.◌∷◌ c s) =
    let rest = leading_ones s in if eqb (code c) b'1' then suc rest else 0

-- `is_base58_pubkey`. 44 digits make less than 58 ^ 44 < 256 ^ 33, so 33 rounds are enough.
unfoldable pub is_base58_pubkey : String → Bool
unfolding index_of base58_number byte_length leading_ones
is_base58_pubkey value =
    leb 32 (str_len value)
    && leb (str_len value) 44
    && all_chars is_base58 value
    && eqb (leading_ones value + byte_length 33 (base58_number 0 value)) 32
