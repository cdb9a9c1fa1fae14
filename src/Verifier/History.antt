-- ===== src/Verifier/History.antt =====
-- app/core/verifier_info.py: the sections after any refreshes of a process, from their outcomes alone.
use agent_discovery_board.Prelude.{
  String, ◌≡◌, refl, ap, ◌∙◌, ◌↔◌, inl, inr, true, false, Option, none, some, List, [], ◌∷◌, arith,
  ◌==◌, eq_iff, Option-cases, is_none, is_some, if◌then◌else◌, Json, JsonLibrary, lookup, put_at,
  lookup-put_at,
}
use agent_discovery_board.Verifier.{
  Section, Sections, Stored, Verifier, fresh, load_sections, load_from_db, to_stored, mark_stale,
  refresh_section, Attempt, payment_of, free_path_of, succeeded, refresh_sections, refresh, live,
  status_of, snapshot,
}

abbrev pub stale : Option Section → Option Section
stale none = none
stale (some s) = some (record s { live = false })

abbrev of_stored : Option Stored → Option Section
of_stored none = none
of_stored (some s) = some (record { facts = s.facts; fetched_at = s.fetched_at; live = false })

abbrev fetched : Option Json → String → Option Section → Option Section
fetched none t old = stale old
fetched (some facts) t old = some (record { facts = facts; fetched_at = some t; live = true })

lookup-refresh_section :
    (name j : String) (r : Option Json) (t : String) (s : Sections)
    → lookup j (refresh_section name r t s)
      ≡ (if name == j then fetched r t (lookup j s) else lookup j s)
unfolding refresh_section mark_stale
lookup-refresh_section name j (some facts) t s = lookup-put_at name j _ s
lookup-refresh_section name j none t s = elim (Option-cases (lookup name s)) [
  | inl e ↦ ground (arith, eq_iff name j)
  | inr (x, e) ↦ ground (arith, eq_iff name j, lookup-put_at name j (record x { live = false }) s)
]

lookup-load_sections :
    (name : String) (stored : List (String × Stored)) (s : Sections)
    → lookup name (load_sections stored s)
      ≡ (if is_none (lookup name s) then of_stored (lookup name stored) else lookup name s)
unfolding load_sections lookup
lookup-load_sections name [] s = ground arith
lookup-load_sections name ((n, x) ∷ stored) s =
    let new : Section = record { facts = x.facts; fetched_at = x.fetched_at; live = false } in
    let next = if is_none (lookup n s) then put_at n new s else s in
    ground (arith, eq_iff n name, lookup-put_at n name new s, lookup-load_sections name stored next)

lookup-to_stored :
    (name : String) (s : Sections) → of_stored (lookup name (to_stored s)) ≡ stale (lookup name s)
unfolding to_stored lookup
lookup-to_stored name [] = refl
lookup-to_stored name ((n, x) ∷ s) = ground (arith, lookup-to_stored name s)

stale-of_stored : (s : Option Stored) → stale (of_stored s) ≡ of_stored s
stale-of_stored none = refl
stale-of_stored (some s) = refl

stale_twice : (s : Option Section) → stale (stale s) ≡ stale s
stale_twice none = refl
stale_twice (some s) = refl

base_none : (name : String) → lookup name (load_from_db none fresh).sections ≡ none
unfolding load_from_db lookup
base_none name = refl

base_some :
    (name : String) (t : List (String × Stored))
    → lookup name (load_from_db (some t) fresh).sections ≡ of_stored (lookup name t)
unfolding load_from_db lookup
base_some name t = lookup-load_sections name t []

-- The refreshes of a process, the last one first; `stored` is what the table holds at the first.
module _ (lib : JsonLibrary) (stored : Option (List (String × Stored))) where
  abbrev pub after : List Attempt → Verifier
  after [] = fresh
  after (a ∷ earlier) = (refresh lib stored a (after earlier)).0

  abbrev pub from_table : String → Option Section
  from_table name = elim stored [ none ↦ none | some t ↦ of_stored (lookup name t) ]

  -- The facts that the last successful reading of a document gave, with their time.
  abbrev pub newest :
      (Attempt → Option Json) → (Attempt → String) → List Attempt → Option (Json × String)
  newest read time [] = none
  newest read time (a ∷ earlier) =
      let before = newest read time earlier in
      elim (read a) [ some facts ↦ some (facts, time a) | none ↦ before ]

  -- What is known of a document after the refreshes `a ∷ earlier`: the newest facts, live if the
  -- last refresh read them, and without any those of the table.
  abbrev pub known :
      (Attempt → Option Json)
      → (Attempt → String)
      → String
      → Attempt
      → List Attempt
      → Option Section
  known read time name a earlier = elim (newest read time (a ∷ earlier)) [
    | none ↦ from_table name
    | some (facts, t) ↦
        some (record { facts = facts; fetched_at = some t; live = is_some (read a) })
  ]

  loaded : (a : Attempt) (earlier : List Attempt) → (after (a ∷ earlier)).loaded_from_db ≡ true
  unfolding refresh load_from_db
  loaded a [] = ground arith
  loaded a (b ∷ earlier) = ground (arith, loaded b earlier)

  lookup-refresh_payment :
      (a : Attempt) (s : Sections)
      → lookup "payment" (refresh_sections lib a s)
        ≡ fetched (payment_of lib a) a.paid_at (lookup "payment" s)
  unfolding refresh_sections
  lookup-refresh_payment a s =
      lookup-refresh_section "free_path" "payment" (free_path_of lib a) a.free_at _
      ∙ lookup-refresh_section "payment" "payment" (payment_of lib a) a.paid_at s

  lookup-refresh_free_path :
      (a : Attempt) (s : Sections)
      → lookup "free_path" (refresh_sections lib a s)
        ≡ fetched (free_path_of lib a) a.free_at (lookup "free_path" s)
  unfolding refresh_sections
  lookup-refresh_free_path a s =
      lookup-refresh_section "free_path" "free_path" (free_path_of lib a) a.free_at _
      ∙ ap (fetched (free_path_of lib a) a.free_at)
          (lookup-refresh_section "payment" "free_path" (payment_of lib a) a.paid_at s)

  base : (name : String) → lookup name (load_from_db stored fresh).sections ≡ from_table name
  base name = elim (Option-cases stored) [
    | inl e ↦ rw e (base_none name)
    | inr (t, e) ↦ rw e (base_some name t)
  ]

  stale_table : (name : String) → stale (from_table name) ≡ from_table name
  stale_table name = elim (Option-cases stored) [
    | inl e ↦ rw e refl
    | inr (t, e) ↦ rw e (stale-of_stored (lookup name t))
  ]

  module _ (read : Attempt → Option Json) (time : Attempt → String) (name : String)
      (a : Attempt) where
    known_first : fetched (read a) (time a) (from_table name) ≡ known read time name a []
    known_first = ground (arith, stale_table name)

    known_later :
        (b : Attempt) (earlier : List Attempt)
        → fetched (read a) (time a) (known read time name b earlier)
          ≡ known read time name a (b ∷ earlier)
    known_later b earlier = ground (arith, stale_table name)

  first :
      (a : Attempt)
      → (after (a ∷ [])).sections ≡ refresh_sections lib a (load_from_db stored fresh).sections
  unfolding refresh
  first a = refl

  later :
      (a b : Attempt) (earlier : List Attempt)
      → (after (a ∷ b ∷ earlier)).sections ≡ refresh_sections lib a (after (b ∷ earlier)).sections
  unfolding refresh
  later a b earlier = ground (arith, loaded b earlier)

  payment_known :
      (a : Attempt) (earlier : List Attempt)
      → lookup "payment" (after (a ∷ earlier)).sections
        ≡ known (payment_of lib) (λ x. x.paid_at) "payment" a earlier
  payment_known a [] =
      rw (first a, lookup-refresh_payment a (load_from_db stored fresh).sections, base "payment")
        (known_first (payment_of lib) (λ x. x.paid_at) "payment" a)
  payment_known a (b ∷ earlier) =
      rw
        (
          later a b earlier,
          lookup-refresh_payment a (after (b ∷ earlier)).sections,
          payment_known b earlier,
        )
        (known_later (payment_of lib) (λ x. x.paid_at) "payment" a b earlier)

  free_path_known :
      (a : Attempt) (earlier : List Attempt)
      → lookup "free_path" (after (a ∷ earlier)).sections
        ≡ known (free_path_of lib) (λ x. x.free_at) "free_path" a earlier
  free_path_known a [] =
      rw
        (first a, lookup-refresh_free_path a (load_from_db stored fresh).sections, base "free_path")
        (known_first (free_path_of lib) (λ x. x.free_at) "free_path" a)
  free_path_known a (b ∷ earlier) =
      rw
        (
          later a b earlier,
          lookup-refresh_free_path a (after (b ∷ earlier)).sections,
          free_path_known b earlier,
        )
        (known_later (free_path_of lib) (λ x. x.free_at) "free_path" a b earlier)

  -- After any refreshes of a process, what is known of each document is the newest facts that a
  -- refresh read, live exactly if the last refresh read them, and without any those of the table.
  pub sections_known :
      (a : Attempt) (earlier : List Attempt)
      → (lookup "payment" (after (a ∷ earlier)).sections
          ≡ known (payment_of lib) (λ x. x.paid_at) "payment" a earlier)
        × (lookup "free_path" (after (a ∷ earlier)).sections
            ≡ known (free_path_of lib) (λ x. x.free_at) "free_path" a earlier)
  sections_known a earlier = (payment_known a earlier, free_path_known a earlier)

  -- The status is `live` exactly if the last refresh of the process read both documents.
  pub status_live_iff :
      (a : Attempt) (earlier : List Attempt)
      → ((snapshot (after (a ∷ earlier))).status ≡ live) ↔ (succeeded lib a ≡ true)
  unfolding snapshot status_of
  status_live_iff a earlier =
      let p = payment_known a earlier in
      let g = free_path_known a earlier in
      ground (arith, stale_table "payment", stale_table "free_path")

-- A process that starts while both documents cannot be read shows what the process before it knew,
-- where its sections were written to the table, as not live.
pub restart_keeps :
    (lib : JsonLibrary) (a : Attempt) (name : String) (s : Sections)
    → payment_of lib a ≡ none
    → free_path_of lib a ≡ none
    → lookup name (refresh lib (some (to_stored s)) a fresh).0.sections ≡ stale (lookup name s)
unfolding refresh refresh_sections
restart_keeps lib a name s unpaid unfree =
    let loaded = load_sections (to_stored s) [] in
    let once = refresh_section "payment" (payment_of lib a) a.paid_at loaded in
    ground (
      arith,
      base_some name (to_stored s),
      lookup-to_stored name s,
      stale_twice (lookup name s),
      lookup-refresh_section "payment" name (payment_of lib a) a.paid_at loaded,
      lookup-refresh_section "free_path" name (free_path_of lib a) a.free_at once,
    )
