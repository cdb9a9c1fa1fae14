-- ===== src/WalletAuth/Message.antt =====
-- What the signed text pins down.
use Prim.Native.Char.{Char, code}
use Prim.Native.String
use text.Mathlib.TextLemmas.{cons-append, append_cancel_left, head-eq_of_cons-eq}
use agent_discovery_board.Prelude.{ℕ, String, ◌≡◌, refl, sym, ap, ◌∙◌, Option, arith, ℤ, Json}
use agent_discovery_board.WalletAuth.{
  Action, update_listing, delete_listing, heartbeat_listing, claim_listing, remove_imported_listing,
  action_name, Libraries, build_message,
}

-- The first letters of the action names differ.
letter : Action → Char
letter update_listing = "u"
letter delete_listing = "d"
letter heartbeat_listing = "h"
letter claim_listing = "c"
letter remove_imported_listing = "r"

name_letter :
    (a : Action) (rest : String)
    → (s : String) × (String.◌++◌ (action_name a) rest ≡ String.◌∷◌ (letter a) s)
unfolding letter
name_letter update_listing rest = (_, cons-append _ _ rest)
name_letter delete_listing rest = (_, cons-append _ _ rest)
name_letter heartbeat_listing rest = (_, cons-append _ _ rest)
name_letter claim_listing rest = (_, cons-append _ _ rest)
name_letter remove_imported_listing rest = (_, cons-append _ _ rest)

letter_code : Action → ℕ
letter_code update_listing = b'u'
letter_code delete_listing = b'd'
letter_code heartbeat_listing = b'h'
letter_code claim_listing = b'c'
letter_code remove_imported_listing = b'r'

code-letter : (a : Action) → code (letter a) ≡ letter_code a
unfolding letter letter_code
code-letter update_listing = refl
code-letter delete_listing = refl
code-letter heartbeat_listing = refl
code-letter claim_listing = refl
code-letter remove_imported_listing = refl

letter_code_injective : (a b : Action) → letter_code a ≡ letter_code b → a ≡ b
unfolding letter_code
letter_code_injective a b h = ground arith

letter_injective : (a b : Action) → code (letter a) ≡ code (letter b) → a ≡ b
letter_injective a b h = letter_code_injective a b (sym (code-letter a) ∙ h ∙ code-letter b)

-- A signature for one action is never one for another: two signed texts are equal only if their
-- actions are, whatever the listings, timestamps, nonces and bodies.
pub message_action :
    (lib : Libraries) (a b : Action) (id id' : String) (ts ts' : ℤ) (n n' : String)
    (body body' : Option Json)
    → build_message lib a id ts n body ≡ build_message lib b id' ts' n' body'
    → a ≡ b
unfolding build_message
message_action lib a b id id' ts ts' n n' body body' e =
    let rest = append_cancel_left "Agent Discovery Board\naction: " _ _ e in
    let (s, p) = name_letter a _ in
    let (t, q) = name_letter b _ in
    letter_injective a b (ap code (head-eq_of_cons-eq (sym p ∙ rest ∙ q)))
