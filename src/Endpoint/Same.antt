-- ===== src/Endpoint/Same.antt =====
-- app/core/endpoint.py: two URLs of the same service have one key.
use Prim.Native.Char.{Char, code}
use mathlib.Core.List.{Permᴰ}
use agent_discovery_board.Prelude.{
  ℕ, String, ◌≡◌, refl, sym, ap, ◌∙◌, Bool, true, false, inl, inr, Option, none, some, List, [],
  ◌∷◌, ◌==◌, eq_iff, eqb, or_else, lower, strip, arith, Bool-cases,
}
use text.Mathlib.TextLemmas.{cons-append, nil-append}
use agent_discovery_board.TextOrder.{le_str_total, le_str_trans, le_str_antisym}
use agent_discovery_board.Endpoint.{
  SplitUrl, UrlLibrary, ◌⊹◌, strip_end, starts_slash, collapse_slashes, le_pair, insert_pair,
  sort_pairs, default_port, netloc_of, normalize_path, normalize_host, normalize_endpoint_url,
}

-- Paths that differ in trailing and repeated slashes.
pub data SamePath : String → String → Type 0 where
  trailing : (p : String) → SamePath (p ⊹ "/") p
  doubled : (p q : String) → SamePath (p ⊹ "//" ⊹ q) (p ⊹ "/" ⊹ q)
  itself : (p : String) → SamePath p p
  back : {p q : String} → SamePath p q → SamePath q p
  chain : {p q r : String} → SamePath p q → SamePath q r → SamePath p r

starts-append :
    (c : Char) (p t : String) → starts_slash (String.◌∷◌ c p ⊹ t) ≡ starts_slash (String.◌∷◌ c p)
starts-append c p t = rw (cons-append c p t) refl

starts-slash : (p q : String) → starts_slash (p ⊹ "//" ⊹ q) ≡ starts_slash (p ⊹ "/" ⊹ q)
starts-slash String.[] q =
    rw (nil-append ("//" ⊹ q), nil-append ("/" ⊹ q), cons-append _ "/" q, cons-append _ "" q) refl
starts-slash (String.◌∷◌ c p) q = starts-append c p ("//" ⊹ q) ∙ sym (starts-append c p ("/" ⊹ q))

collapse-doubled : (p q : String) → collapse_slashes (p ⊹ "//" ⊹ q) ≡ collapse_slashes (p ⊹ "/" ⊹ q)
unfolding collapse_slashes
collapse-doubled String.[] q =
    rw
      (
        nil-append ("//" ⊹ q),
        nil-append ("/" ⊹ q),
        cons-append _ "/" q,
        cons-append _ "" q,
        nil-append q,
      )
      refl
collapse-doubled (String.◌∷◌ c p) q =
    let rest = collapse-doubled p q in
    let first = starts-slash p q in
    rw (cons-append c p ("//" ⊹ q), cons-append c p ("/" ⊹ q)) (rw (rest, first) refl)

one-slash : (c : Char) → normalize_path (String.◌∷◌ c "/") ≡ normalize_path (String.◌∷◌ c "")
unfolding normalize_path collapse_slashes strip_end
one-slash c = go (eqb (code c) b'/') refl
  where
    go :
        (b : Bool)
        → eqb (code c) b'/' ≡ b
        → normalize_path (String.◌∷◌ c "/") ≡ normalize_path (String.◌∷◌ c "")
    go true e = rw (e, e) refl
    go false e = rw (e, e) refl

normalize-trailing : (p : String) → normalize_path (p ⊹ "/") ≡ normalize_path p
unfolding normalize_path collapse_slashes strip_end
normalize-trailing String.[] = refl
normalize-trailing (String.◌∷◌ c String.[]) = ap normalize_path (cons-append c "" "/") ∙ one-slash c
normalize-trailing (String.◌∷◌ c (String.◌∷◌ d p)) =
    let rest = normalize-trailing (String.◌∷◌ d p) in
    let first = starts-append d p "/" in
    rw (cons-append c (String.◌∷◌ d p) "/", first) (ground arith)

normalize-SamePath : {p q : String} → SamePath p q → normalize_path p ≡ normalize_path q
unfolding normalize_path
normalize-SamePath (SamePath.trailing p) = normalize-trailing p
normalize-SamePath (SamePath.doubled p q) = ap (strip_end b'/') (collapse-doubled p q)
normalize-SamePath (SamePath.itself p) = refl
normalize-SamePath (SamePath.back s) = sym (normalize-SamePath s)
normalize-SamePath (SamePath.chain s t) = normalize-SamePath s ∙ normalize-SamePath t

le_pair_total : (a b : String × String) → le_pair a b ≡ false → le_pair b a ≡ true
le_pair_total a b e =
    ground (arith, eq_iff a.0 b.0, eq_iff b.0 a.0, le_str_total a.0 b.0, le_str_total a.1 b.1)

le_pair_trans :
    (a b c : String × String) → le_pair a b ≡ true → le_pair b c ≡ true → le_pair a c ≡ true
le_pair_trans a b c e f = ground (
  arith,
  eq_iff a.0 b.0,
  eq_iff b.0 c.0,
  eq_iff a.0 c.0,
  le_str_trans a.0 b.0 c.0,
  le_str_trans a.1 b.1 c.1,
  le_str_antisym a.0 b.0,
)

le_pair_antisym : (a b : String × String) → le_pair a b ≡ true → le_pair b a ≡ true → a ≡ b
le_pair_antisym a b e f = elim (Bool-cases (a.0 == b.0)) [
  | inl h ↦
      let p = (eq_iff a.0 b.0).0 h in
      let q : a.1 ≡ b.1 =
        le_str_antisym a.1 b.1 (ground (arith, eq_iff b.0 a.0)) (ground (arith, eq_iff b.0 a.0)) in
      ap (λ x. (x, a.1)) p ∙ ap (λ x. (b.0, x)) q
  | inr h ↦ absurd (ground (arith, le_str_antisym a.0 b.0, eq_iff a.0 b.0, eq_iff b.0 a.0))
]

insert-insert :
    (a b : String × String) (l : List (String × String))
    → insert_pair a (insert_pair b l) ≡ insert_pair b (insert_pair a l)
unfolding insert_pair
insert-insert a b [] = ground (arith, le_pair_total a b, le_pair_antisym a b)
insert-insert a b (c ∷ l) =
    let rest = insert-insert a b l in
    let same = le_pair_antisym a b in grind (arith, le_pair_total, le_pair_trans, rest, same)

sort-Perm : {k l : List (String × String)} → Permᴰ k l → sort_pairs k ≡ sort_pairs l
unfolding sort_pairs
sort-Perm Permᴰ.nil = refl
sort-Perm (Permᴰ.cons {a = a} {b = b} {l₁ = k} {l₂ = l} e p) =
    ap (λ x. insert_pair x (sort_pairs k)) e ∙ ap (insert_pair b) (sort-Perm p)
sort-Perm (Permᴰ.swap {a = a} {b = b} {a' = c} {l = l} e f) =
    insert-insert a b (sort_pairs l)
    ∙ ap (λ x. insert_pair x (insert_pair a (sort_pairs l))) f
    ∙ ap (λ x. insert_pair c (insert_pair x (sort_pairs l))) e
sort-Perm (Permᴰ.trans p q) = sort-Perm p ∙ sort-Perm q

-- The port that a client connects to, where there is a default.
abbrev pub served_port : String → Option ℕ → Option ℕ
served_port scheme none = default_port scheme
served_port scheme (some p) = some p

netloc-served :
    (urls : UrlLibrary) (scheme host : String) (p q : Option ℕ)
    → served_port scheme p ≡ served_port scheme q
    → netloc_of urls scheme host p ≡ netloc_of urls scheme host q
unfolding default_port
netloc-served urls scheme host none none e = refl
netloc-served urls scheme host none (some q) e = ground arith
netloc-served urls scheme host (some p) none e = ground arith
netloc-served urls scheme host (some p) (some q) e = ground arith

-- Two URLs that point at the same service: they differ only in the case of scheme and host, trailing
-- dots of the host, an explicit default port, trailing and repeated slashes of the path, and the
-- order of the query's fields. A fragment and a user are no fields of `SplitUrl`.
pub record SameService (urls : UrlLibrary) (a b : SplitUrl) : Type 0 where
  pub scheme : lower a.scheme ≡ lower b.scheme
  pub host :
      strip_end b'.' (lower (or_else a.hostname ""))
      ≡ strip_end b'.' (lower (or_else b.hostname ""))
  pub port : served_port (lower a.scheme) a.port ≡ served_port (lower a.scheme) b.port
  pub path : SamePath a.path b.path
  pub query : Permᴰ (urls.parse_qsl a.query) (urls.parse_qsl b.query)

-- Two URLs that differ only in the case of scheme and host, trailing dots of the host, an explicit
-- default port, trailing and repeated slashes of the path, and the order of the query's fields
-- (`SameService`) have the same key.
pub normalize-SameService :
    (urls : UrlLibrary) (u v : String)
    → SameService urls (urls.urlsplit (strip u)) (urls.urlsplit (strip v))
    → normalize_endpoint_url urls u ≡ normalize_endpoint_url urls v
unfolding normalize_endpoint_url normalize_host
normalize-SameService urls u v s =
    let a = urls.urlsplit (strip u) in
    let b = urls.urlsplit (strip v) in
    let host : normalize_host a.hostname ≡ normalize_host b.hostname = rw s.host refl in
    let netloc =
      netloc-served urls (lower a.scheme) (normalize_host a.hostname) a.port b.port s.port in
    rw (netloc, s.scheme, host, normalize-SamePath s.path, sort-Perm s.query) refl
