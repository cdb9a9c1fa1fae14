-- ===== src/Board/FactTypes.antt =====
-- app/api/routes/listings.py with app/core/models.py: the types of the fields of a verify_output action,
-- and what reading the verifier's facts into them comes to.
use agent_discovery_board.Prelude.{
  ◌≡◌, refl, sym, ap, ◌∙◌, inl, inr, Bool, true, false, not, ◌&&◌, ◌||◌, Option, none, some, arith,
  is_some, Json, null, bool, int, float, str, arr, obj, Items, nil, cons, Fields, get_field, get_or,
  as_object, is_true, Option-cases, Bool-cases, ◌>>=◌,
}
use agent_discovery_board.Listing.{Listing}
use agent_discovery_board.Verifier.{Snapshot}
use agent_discovery_board.Board.Facts.{
  FactLibrary, text_of, nullable_text_of, texts_of, endpoint_of, method_of, has_price, price_of,
  networks_of, field_text, protocol_of, is_free, free_object, free_path_of, payment_object,
  payment_of, verify_action,
}

-- `str`
abbrev is_text : Json → Bool
is_text (str s) = true
is_text _ = false

-- `str | None`
abbrev is_text_or_null : Json → Bool
is_text_or_null null = true
is_text_or_null j = is_text j

-- `list[str]`
abbrev all_texts : Items → Bool
all_texts nil = true
all_texts (cons j items) = is_text j && all_texts items

abbrev is_texts : Json → Bool
is_texts (arr items) = all_texts items
is_texts _ = false

abbrev is_field : (Json → Bool) → Option Json → Bool
is_field has_type none = false
is_field has_type (some j) = has_type j

abbrev is_dict : (Fields → Bool) → Json → Bool
is_dict p (obj fs) = p fs
is_dict p _ = false

module _ (lib : FactLibrary) where
  -- A price and a currency of any type. An endpoint that counts as false gives way to the default.
  abbrev is_payment : Fields → Bool
  is_payment payment =
      (not (is_true lib.json (get_or "endpoint" null payment))
        || is_text (get_or "endpoint" null payment))
      && is_text_or_null (get_or "method" (str "POST") payment)
      && has_price lib payment
      && is_texts (get_or "networks" null payment)
      && is_field is_text_or_null (get_field "protocol" payment)

  abbrev is_known_payment : Option Fields → Bool
  is_known_payment none = true
  is_known_payment (some payment) = is_payment payment

  -- Facts that count as false are not known.
  abbrev is_known : (Fields → Bool) → Option Json → Bool
  is_known p none = true
  is_known p (some facts) = not (is_true lib.json facts) || is_dict p facts

  -- The types of the verifier's facts.
  unfoldable pub is_typed : Snapshot → Bool
  unfolding is_true get_field
  is_typed info = is_known is_payment info.payment && is_known (is_free lib) info.free_path

is_some-text_of : (j : Json) → is_some (text_of j) ≡ is_text j
is_some-text_of null = refl
is_some-text_of (bool b) = refl
is_some-text_of (int n) = refl
is_some-text_of (float x) = refl
is_some-text_of (str s) = refl
is_some-text_of (arr items) = refl
is_some-text_of (obj fs) = refl

is_some-nullable_text_of : (j : Json) → is_some (nullable_text_of j) ≡ is_text_or_null j
is_some-nullable_text_of null = refl
is_some-nullable_text_of (bool b) = refl
is_some-nullable_text_of (int n) = refl
is_some-nullable_text_of (float x) = refl
is_some-nullable_text_of (str s) = refl
is_some-nullable_text_of (arr items) = refl
is_some-nullable_text_of (obj fs) = refl

is_some-texts_of-arr : (items : Items) → is_some (texts_of (arr items)) ≡ all_texts items
unfolding texts_of
is_some-texts_of-arr nil = refl
is_some-texts_of-arr (cons null items) = refl
is_some-texts_of-arr (cons (bool b) items) = refl
is_some-texts_of-arr (cons (int n) items) = refl
is_some-texts_of-arr (cons (float x) items) = refl
is_some-texts_of-arr (cons (arr xs) items) = refl
is_some-texts_of-arr (cons (obj fs) items) = refl
is_some-texts_of-arr (cons (str s) items) =
    let rest = is_some-texts_of-arr items in
    elim (Option-cases (texts_of (arr items))) [
      | inl e ↦ rw e (sym (ap is_some e) ∙ rest)
      | inr (texts, e) ↦ rw e (sym (ap is_some e) ∙ rest)
    ]

is_some-texts_of : (j : Json) → is_some (texts_of j) ≡ is_texts j
unfolding texts_of
is_some-texts_of null = refl
is_some-texts_of (bool b) = refl
is_some-texts_of (int n) = refl
is_some-texts_of (float x) = refl
is_some-texts_of (str s) = refl
is_some-texts_of (arr items) = is_some-texts_of-arr items
is_some-texts_of (obj fs) = refl

module _ (lib : FactLibrary) where
  is_some-endpoint_of :
      (payment : Fields)
      → is_some (text_of (endpoint_of lib (some payment))) ≡ (
          not (is_true lib.json (get_or "endpoint" null payment))
          || is_text (get_or "endpoint" null payment))
  is_some-endpoint_of payment =
      elim (Bool-cases (is_true lib.json (get_or "endpoint" null payment))) [
        | inl e ↦ rw e (is_some-text_of (get_or "endpoint" null payment))
        | inr e ↦ rw e refl
      ]

  is_some-field_text : (j : Option Json) → is_some (field_text lib j) ≡ is_field is_text_or_null j
  is_some-field_text none = refl
  is_some-field_text (some j) = is_some-nullable_text_of j

  is_some-price_of :
      (payment : Fields) → is_some (price_of lib (some payment)) ≡ has_price lib payment
  is_some-price_of payment = elim (Bool-cases (has_price lib payment)) [
    | inl e ↦ rw e refl
    | inr e ↦ rw e refl
  ]

  is_some-free_object :
      (j : Json) → is_some (free_object lib (as_object j)) ≡ is_dict (is_free lib) j
  is_some-free_object null = refl
  is_some-free_object (bool b) = refl
  is_some-free_object (int n) = refl
  is_some-free_object (float x) = refl
  is_some-free_object (str s) = refl
  is_some-free_object (arr items) = refl
  is_some-free_object (obj fs) = elim (Bool-cases (is_free lib fs)) [
    | inl e ↦ rw e refl
    | inr e ↦ rw e refl
  ]

  is_some-free_path_of :
      (free : Option Json) → is_some (free_path_of lib free) ≡ is_known lib (is_free lib) free
  is_some-free_path_of none = refl
  is_some-free_path_of (some free) = elim (Bool-cases (is_true lib.json free)) [
    | inl e ↦ rw e (is_some-free_object free)
    | inr e ↦ rw e refl
  ]

join :
    {a a' b b' c c' d d' e e' f f' : Bool}
    → a ≡ a'
    → b ≡ b'
    → c ≡ c'
    → d ≡ d'
    → e ≡ e'
    → f ≡ f'
    → (a && b && c && d && e && f) ≡ ((a' && b' && c' && d' && e') && f')
join p q r s t u = ground (arith, p, q, r, s, t, u)

chain :
    {A B C D E F : Type 0} {R : Type 0} (a : Option A) (b : Option B) (c : Option C) (d : Option D)
    (e : Option E) (f : Option F) (make : A → B → C → D → E → F → R)
    → is_some
        (a >>= λ u. b >>= λ v. c >>= λ w. d >>= λ x. e >>= λ y. f >>= λ z. some (make u v w x y z))
      ≡ (is_some a && is_some b && is_some c && is_some d && is_some e && is_some f)
chain none b c d e f make = refl
chain (some a) none c d e f make = refl
chain (some a) (some b) none d e f make = refl
chain (some a) (some b) (some c) none e f make = refl
chain (some a) (some b) (some c) (some d) none f make = refl
chain (some a) (some b) (some c) (some d) (some e) none make = refl
chain (some a) (some b) (some c) (some d) (some e) (some f) make = refl

module _ (lib : FactLibrary) where
  read_facts :
      (payment : Option Fields) (free : Option Json)
      → (is_some (text_of (endpoint_of lib payment))
          && is_some (nullable_text_of (method_of lib payment))
          && is_some (price_of lib payment)
          && is_some (networks_of lib payment)
          && is_some (protocol_of lib payment)
          && is_some (free_path_of lib free))
        ≡ (is_known_payment lib payment && is_known lib (is_free lib) free)
  read_facts none free = is_some-free_path_of lib free
  read_facts (some payment) free =
      join (is_some-endpoint_of lib payment)
        (is_some-nullable_text_of (get_or "method" (str "POST") payment))
        (is_some-price_of lib payment) (is_some-texts_of (get_or "networks" null payment))
        (is_some-field_text lib (get_field "protocol" payment)) (is_some-free_path_of lib free)

  -- What follows the reading of a payment, of which `served` says whether it is served.
  module _ {R : Type 0} (rest : Option Fields → Option R) (free : Bool)
      (served : (payment : Option Fields)
        → is_some (rest payment) ≡ (is_known_payment lib payment && free)) where
    from_object :
        (j : Json)
        → is_some (payment_object lib (as_object j) >>= rest) ≡ (is_dict (is_payment lib) j && free)
    from_object null = refl
    from_object (bool b) = refl
    from_object (int n) = refl
    from_object (float x) = refl
    from_object (str s) = refl
    from_object (arr items) = refl
    from_object (obj fs) = served (some fs)

    from_payment :
        (facts : Option Json)
        → is_some (payment_of lib facts >>= rest) ≡ (is_known lib (is_payment lib) facts && free)
    from_payment none = served none
    from_payment (some facts) = elim (Bool-cases (is_true lib.json facts)) [
      | inl e ↦ rw e (from_object facts)
      | inr e ↦ rw e (served none)
    ]

  pub verify_typed :
      (info : Snapshot) (schema : Json) (row : Listing)
      → is_some (verify_action lib info schema row) ≡ is_typed lib info
  unfolding verify_action is_typed
  verify_typed info schema row =
      from_payment _ (is_known lib (is_free lib) info.free_path)
        (λ payment.
          chain (text_of (endpoint_of lib payment)) (nullable_text_of (method_of lib payment))
            (price_of lib payment) (networks_of lib payment) (protocol_of lib payment)
            (free_path_of lib info.free_path) _
          ∙ read_facts payment info.free_path)
        info.payment
