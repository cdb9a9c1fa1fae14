-- ===== src/ScoreClient.antt =====
-- app/core/score_client.py: the badge cache. The paid call is an argument, what `_fetch` gets for it;
-- `time.monotonic()` and BADGE_CACHE_TTL_SECONDS are whole microseconds.
pub mod Page
use agent_discovery_board.Prelude.{
  ℕ, suc, ◌+◌, ◌≤◌, ◌<◌, String, ◌≡◌, refl, ◌∙◌, ◌⊎◌, inl, inr, ap, Bool, true, false, not, ◌&&◌,
  ◌||◌, Option, none, some, List, [], ◌∷◌, arith, ◌==◌, eq_iff, eq_refl, ltb, eqb, if◌then◌else◌,
  or_else, length, lookup, put_at, lookup-put_at, Bool-cases, Option-cases, All, Json, null, int,
  pos, str, obj, Fields, field, end, get_field, get_or,
}

abbrev pub Badge : Type 0
Badge = Json

-- `_to_badge`, with the time and the address of the verification service
unfoldable pub to_badge : String → String → Fields → Badge
unfolding get_field
to_badge now_iso source reply = obj (
    field "trust_score" (get_or "trust_score" null reply) (
      field "confidence_interval_95" (get_or "confidence_interval_95" null reply) (
        field "sample_size" (get_or "sample_size" (int (pos 0)) reply) (
          field "identity_verified" (get_or "identity_verified" null reply) (
            field "reason" (get_or "reason" null reply)
              (field "fetched_at" (str now_iso) (field "source" (str source) end)))))))

-- The response to a paid call: its status and its JSON, if it has one.
pub record Response : Type 0 where
  pub status : ℕ
  pub json : Option Json

-- `_fetch`: `none` where the call raises, and no badge on any failure.
unfoldable pub fetch : String → String → Option Response → Option Badge
unfolding to_badge
fetch now_iso source none = none
fetch now_iso source (some r) =
    if eqb r.status 200
    then elim r.json [ some (obj reply) ↦ some (to_badge now_iso source reply) | _ ↦ none ]
    else none

-- `_cache`: when a badge was looked up, and what was found.
abbrev pub Cache : Type 0
Cache = List (String × (ℕ × Option Badge))

-- The cached badge, if it is fresh.
abbrev pub fresh : ℕ → ℕ → Option (ℕ × Option Badge) → Option (Option Badge)
fresh ttl now none = none
fresh ttl now (some (t, badge)) = if ltb now (t + ttl) then some badge else none

-- The first half of `get_badge`, up to the call: `some` is an answer without a call.
unfoldable pub before_call : Bool → ℕ → Option String → ℕ → Cache → Option (Option Badge)
unfolding lookup
before_call enabled ttl none now cache = some none
before_call enabled ttl (some agent) now cache =
    if agent == "" || not enabled then some none else fresh ttl now (lookup agent cache)

-- The second half, where the call has been made.
unfoldable pub after_call : String → ℕ → Option Badge → Cache → Cache
unfolding put_at
after_call agent now badge cache = put_at agent (now, badge) cache

-- One lookup that no other one interleaves: the badge, the cache, and whether a call was paid.
unfoldable pub get_badge :
    Bool → ℕ → Option String → ℕ → Option Badge → Cache → Option Badge × Cache × Bool
unfolding before_call after_call
get_badge enabled ttl agent now fetched cache = elim (before_call enabled ttl agent now cache) [
  | some badge ↦ (badge, cache, false)
  | none ↦ (fetched, after_call (or_else agent "") now fetched cache, true)
]

-- A lookup with its time and what the call would get.
pub record Lookup : Type 0 where
  pub agent : String
  pub now : ℕ
  pub fetched : Option Badge

-- The lookups of a board that pays, one after the other: how many calls are paid for one agent.
unfoldable pub count_paid : ℕ → String → Cache → List Lookup → ℕ
unfolding get_badge
count_paid ttl agent cache [] = 0
count_paid ttl agent cache (l ∷ ls) =
    let (badge, cache', paid) = get_badge true ttl (some l.agent) l.now l.fetched cache in
    (if paid && l.agent == agent then 1 else 0) + count_paid ttl agent cache' ls

module _ (ttl : ℕ) (agent : String) where
  cached :
      (t : ℕ) (badge : Option Badge) (cache : Cache) (l : Lookup)
      → lookup agent cache ≡ some (t, badge)
      → l.now < t + ttl
      → let (found, cache', paid) = get_badge true ttl (some l.agent) l.now l.fetched cache in
        (lookup agent cache' ≡ some (t, badge)) × (paid && l.agent == agent ≡ false)
  unfolding get_badge before_call after_call
  cached t badge cache l h early = elim (Bool-cases (l.agent == agent)) [
    | inl e ↦
        let same = (eq_iff l.agent agent).0 e in
        let g = ap (λ a. lookup a cache) same ∙ h in ground arith
    | inr e ↦ ground (arith, lookup-put_at l.agent agent (l.now, l.fetched) cache)
  ]

  served_in_ttl :
      (t : ℕ) (badge : Option Badge) (cache : Cache) (ls : List Lookup)
      → lookup agent cache ≡ some (t, badge)
      → All (λ (l : Lookup). l.now < t + ttl) ls
      → count_paid ttl agent cache ls ≡ 0
  unfolding count_paid
  served_in_ttl t badge cache [] h early = refl
  served_in_ttl t badge cache (l ∷ ls) h (now, later) =
      let (kept, free) = cached t badge cache l h now in
      let rest =
        served_in_ttl t badge (get_badge true ttl (some l.agent) l.now l.fetched cache).1 ls kept
          later in
      rw free (omega arith)

  -- A lookup leaves what is cached of an agent and costs nothing for it, or it caches what it finds.
  looked_up :
      (cache : Cache) (l : Lookup)
      → let (found, cache', paid) = get_badge true ttl (some l.agent) l.now l.fetched cache in
        ((lookup agent cache' ≡ lookup agent cache) × (paid && l.agent == agent ≡ false))
        ⊎ (lookup agent cache' ≡ some (l.now, l.fetched))
  unfolding get_badge before_call after_call
  looked_up cache l = elim (Bool-cases (l.agent == agent)) [
    | inr e ↦ inl (ground (arith, lookup-put_at l.agent agent (l.now, l.fetched) cache))
    | inl e ↦ elim (Bool-cases (l.agent == "")) [
      | inl empty ↦ inl (ground arith)
      | inr named ↦ elim (Option-cases (fresh ttl l.now (lookup l.agent cache))) [
        | inl out ↦ inr (ground (arith, lookup-put_at l.agent agent (l.now, l.fetched) cache))
        | inr (badge, kept) ↦ inl (ground arith)
      ]
    ]
  ]

  one_at_most : (b : Bool) → (if b then 1 else 0) ≤ 1
  one_at_most b = ground arith

  later_window :
      {start : ℕ} (now : ℕ)
      → start ≤ now
      → (ls : List Lookup) → All (λ (l : Lookup). (start ≤ l.now) × (l.now < start + ttl)) ls
      → All (λ (l : Lookup). l.now < now + ttl) ls
  later_window now h [] w = tt
  later_window now h (l ∷ ls) (here, w) = (omega arith, later_window now h ls w)

  -- Of the lookups of an agent, one after the other within one TTL, at most one is paid for, whatever
  -- the cache holds when the first begins, a fresh or an expired entry of the agent too, and whatever
  -- other agents are looked up between them.
  pub paid_once :
      (start : ℕ) (cache : Cache) (ls : List Lookup)
      → All (λ (l : Lookup). (start ≤ l.now) × (l.now < start + ttl)) ls
      → count_paid ttl agent cache ls ≤ 1
  unfolding count_paid
  paid_once start cache [] w = omega arith
  paid_once start cache (l ∷ ls) (now, later) =
      let step = get_badge true ttl (some l.agent) l.now l.fetched cache in
      elim (looked_up cache l) [
        | inl (same, free) ↦ let rest = paid_once start step.1 ls later in rw free (omega arith)
        | inr kept ↦
            let rest =
              served_in_ttl l.now l.fetched step.1 ls kept (later_window l.now now.0 ls later) in
            let one = one_at_most (step.2 && l.agent == agent) in omega (arith, rest, one)
      ]
