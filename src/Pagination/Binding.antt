-- ===== src/Pagination/Binding.antt =====
-- app/core/pagination.py: a cursor comes back as it was made, and for nothing else.
use Prim.Native.Nat.{◌^◌}
use agent_discovery_board.Prelude.{
  Json, eq_refl, false, ℕ, ◌-◌, ◌≤◌, String, ◌≡◌, refl, ap, ◌∙◌, inl, inr, Bool, true, not, ◌&&◌,
  Option, none, some, arith, ◌==◌, leb, if◌then◌else◌, Bool-cases, or_else, str_len, pos, int, str,
  obj, Fields, get_field,
}
use agent_discovery_board.Prelude.{field, end}
use agent_discovery_board.Errors.{Result, ok, err, crash}
use agent_discovery_board.WalletAuth.{parsed, overflow}
use agent_discovery_board.Pagination.{
  is_cursor_id, read_time, with_value, read_fields, read_cursor, AnyCursor, activity_cursor,
  rank_cursor, similarity_cursor, CursorLibrary, query_fingerprint, encode_activity_cursor,
  encode_rank_cursor, encode_similarity_cursor, to_float, decode_cursor, bind_cursor, bound,
  resolve_cursor,
}

-- A cursor that may serve a request: one of a browse where there is no query, else one of a search with
-- the query's own fingerprint.
unfoldable pub serves : CursorLibrary → Option String → AnyCursor → Bool
unfolding query_fingerprint
serves lib q (activity_cursor a id) = or_else q "" == ""
serves lib q (rank_cursor v id h) =
    not (or_else q "" == "") && h == query_fingerprint lib (or_else q "")
serves lib q (similarity_cursor v id h) =
    not (or_else q "" == "") && h == query_fingerprint lib (or_else q "")

served_by : {c c' : AnyCursor} → ok c ≡ ok c' → c' ≡ c
served_by {c} {c'} e = ground (arith, e)

bind_cursor-serves :
    (lib : CursorLibrary) (q : Option String) (c c' : AnyCursor)
    → bind_cursor lib q c ≡ ok c'
    → serves lib q c' ≡ true
unfolding bind_cursor serves
bind_cursor-serves lib none (activity_cursor a id) c' e = rw (served_by e) refl
bind_cursor-serves lib (some q) (activity_cursor a id) c' e = elim (Bool-cases (q == "")) [
  | inl empty ↦ rw (served_by (rw empty at e)) empty
  | inr query ↦ absurd (ground (arith, query, e))
]
bind_cursor-serves lib none (rank_cursor v id h) c' e = absurd (ground arith)
bind_cursor-serves lib (some q) (rank_cursor v id h) c' e = elim (Bool-cases (q == "")) [
  | inl empty ↦ absurd (ground (arith, empty, e))
  | inr query ↦ elim (Bool-cases (h == query_fingerprint lib q)) [
    | inl same ↦ rw (served_by (rw (query, same) at e), query, same) refl
    | inr other ↦ absurd (ground (arith, query, other, e))
  ]
]
bind_cursor-serves lib none (similarity_cursor v id h) c' e = absurd (ground arith)
bind_cursor-serves lib (some q) (similarity_cursor v id h) c' e = elim (Bool-cases (q == "")) [
  | inl empty ↦ absurd (ground (arith, empty, e))
  | inr query ↦ elim (Bool-cases (h == query_fingerprint lib q)) [
    | inl same ↦ rw (served_by (rw (query, same) at e), query, same) refl
    | inr other ↦ absurd (ground (arith, query, other, e))
  ]
]

-- Whatever text a client sends as its cursor, the cursor that a request goes on with is one of a browse
-- if the request has no query, and else one of a search with the fingerprint of this very query.
pub resolve_cursor-serves :
    (lib : CursorLibrary) (text : String) (q : Option String) (c : AnyCursor)
    → resolve_cursor lib (some text) q ≡ ok (some c)
    → serves lib q c ≡ true
unfolding resolve_cursor
resolve_cursor-serves lib text q c e = go (decode_cursor lib text) refl
  where
    go : (r : Result AnyCursor) → decode_cursor lib text ≡ r → serves lib q c ≡ true
    go (err x) f = absurd (ground arith)
    go crash f = absurd (ground arith)
    go (ok d) f = last (bind_cursor lib q d) refl (rw (resolve_cursor, f) at e)
      where
        last :
            (b : Result AnyCursor)
            → bind_cursor lib q d ≡ b
            → elim b [ ok c' ↦ ok (some c') | err x ↦ err x | crash ↦ crash ] ≡ ok (some c)
            → serves lib q c ≡ true
        last (ok c') g k = bind_cursor-serves lib q d c (g ∙ ground (arith, k))
        last (err x) g k = absurd (ground arith)
        last crash g k = absurd (ground arith)

id_fits : (id : String) → 1 ≤ str_len id → str_len id ≤ 64 → is_cursor_id id ≡ true
unfolding is_cursor_id
id_fits id long short = ground (arith, long, short)

resolves :
    (lib : CursorLibrary) (text : String) (q : Option String) (c : AnyCursor)
    → decode_cursor lib text ≡ ok c
    → bind_cursor lib q c ≡ ok c
    → resolve_cursor lib (some text) q ≡ ok (some c)
unfolding resolve_cursor
resolves lib text q c decoded binds =
    ap (bound lib q) decoded
    ∙ ap (λ (b : Result AnyCursor). elim b [ ok c' ↦ ok (some c') | err e ↦ err e | crash ↦ crash ])
        binds

module _ (lib : CursorLibrary) (id : String) (long : 1 ≤ str_len id) (short : str_len id ≤ 64) where
  activity_binds :
      (q : Option String) (t : ℕ)
      → (or_else q "" == "") ≡ true
      → bind_cursor lib q (activity_cursor t id) ≡ ok (activity_cursor t id)
  unfolding bind_cursor
  activity_binds none t empty = refl
  activity_binds (some text) t empty = rw empty refl

  -- The cursor of a browse, for a request without a query, or with an empty one.
  pub activity_returns :
      (t : ℕ) (q : Option String)
      → lib.decode (encode_activity_cursor lib t id)
        ≡ some (obj (field "a" (str (lib.isoformat t)) (field "i" (str id) end)))
      → lib.fromisoformat (lib.isoformat t) ≡ some (t, true)
      → (or_else q "" == "") ≡ true
      → resolve_cursor lib (some (encode_activity_cursor lib t id)) q
        ≡ ok (some (activity_cursor t id))
  unfolding resolve_cursor decode_cursor get_field bind_cursor
  activity_returns t q readable zoned empty =
      let payload : Fields = field "a" (str (lib.isoformat t)) (field "i" (str id) end) in
      let decoded : decode_cursor lib (encode_activity_cursor lib t id)
          ≡ ok (activity_cursor t id) =
        ap (read_cursor lib) readable
        ∙ ap (λ b. read_fields lib (if b then some id else none) payload) (id_fits id long short)
        ∙ ap (read_time lib id) zoned in
      resolves lib _ q _ decoded (activity_binds q t empty)

  module _ (v : Json) (q : String) (readable : to_float lib v ≡ parsed v)
      (asked : (q == "") ≡ false) where
    abbrev fingerprint : Json
    fingerprint = str (query_fingerprint lib q)

    -- The cursor of a full-text search.
    pub rank_returns :
        lib.decode (encode_rank_cursor lib v id q)
          ≡ some (
              obj
                (field "r" v (field "i" (str id) (field "qh" (str (query_fingerprint lib q)) end))))
        → resolve_cursor lib (some (encode_rank_cursor lib v id q)) (some q)
          ≡ ok (some (rank_cursor v id (query_fingerprint lib q)))
    unfolding resolve_cursor decode_cursor get_field bind_cursor
    rank_returns decodes =
        let payload : Fields = field "r" v (field "i" (str id) (field "qh" fingerprint end)) in
        let decoded : decode_cursor lib (encode_rank_cursor lib v id q)
            ≡ ok (rank_cursor v id (query_fingerprint lib q)) =
          ap (read_cursor lib) decodes
          ∙ ap (λ b. read_fields lib (if b then some id else none) payload) (id_fits id long short)
          ∙ ap (λ x. with_value lib (λ w f. rank_cursor w id f) x (some fingerprint)) readable in
        let binds : bind_cursor lib (some q) (rank_cursor v id (query_fingerprint lib q))
            ≡ ok (rank_cursor v id (query_fingerprint lib q)) =
          rw (asked, eq_refl (query_fingerprint lib q)) refl in
        resolves lib _ (some q) _ decoded binds

    -- The cursor of a search by similarity.
    pub similarity_returns :
        lib.decode (encode_similarity_cursor lib v id q)
          ≡ some (
              obj
                (field "s" v (field "i" (str id) (field "qh" (str (query_fingerprint lib q)) end))))
        → resolve_cursor lib (some (encode_similarity_cursor lib v id q)) (some q)
          ≡ ok (some (similarity_cursor v id (query_fingerprint lib q)))
    unfolding resolve_cursor decode_cursor get_field bind_cursor
    similarity_returns decodes =
        let payload : Fields = field "s" v (field "i" (str id) (field "qh" fingerprint end)) in
        let decoded : decode_cursor lib (encode_similarity_cursor lib v id q)
            ≡ ok (similarity_cursor v id (query_fingerprint lib q)) =
          ap (read_cursor lib) decodes
          ∙ ap (λ b. read_fields lib (if b then some id else none) payload) (id_fits id long short)
          ∙ ap (λ x. with_value lib (λ w f. similarity_cursor w id f) x (some fingerprint))
              readable in
        let binds : bind_cursor lib (some q) (similarity_cursor v id (query_fingerprint lib q))
            ≡ ok (similarity_cursor v id (query_fingerprint lib q)) =
          rw (asked, eq_refl (query_fingerprint lib q)) refl in
        resolves lib _ (some q) _ decoded binds

-- The cursor that a browse hands out after a listing comes back as that listing's place in the order,
-- where the encoding of this payload and of this time can be read back. An id has 1 to 64 characters.
pub activity_roundtrip :
    (lib : CursorLibrary) (t : ℕ) (id : String)
    → lib.decode (encode_activity_cursor lib t id)
      ≡ some (obj (field "a" (str (lib.isoformat t)) (field "i" (str id) end)))
    → lib.fromisoformat (lib.isoformat t) ≡ some (t, true)
    → 1 ≤ str_len id
    → str_len id ≤ 64
    → resolve_cursor lib (some (encode_activity_cursor lib t id)) none
      ≡ ok (some (activity_cursor t id))
activity_roundtrip lib t id readable zoned long short =
    activity_returns lib id long short t none readable zoned refl

-- A cursor whose rank is an integer that no float can hold is not refused as invalid: the request ends
-- in an exception that is turned into a 500. The id has 1 to 64 characters.
pub huge_rank_crash :
    (lib : CursorLibrary) (text : String) (q : Option String) (n : ℕ) (id h : String)
    → lib.decode text
      ≡ some (obj (field "r" (int (pos n)) (field "i" (str id) (field "qh" (str h) end))))
    → 2 ^ 1024 - 2 ^ 970 ≤ n
    → 1 ≤ str_len id
    → str_len id ≤ 64
    → resolve_cursor lib (some text) q ≡ crash
unfolding resolve_cursor decode_cursor get_field to_float
huge_rank_crash lib text q n id h readable huge long short =
    let over : leb (2 ^ 1024 - 2 ^ 970) n ≡ true = ground (arith, huge) in
    let payload : Fields = field "r" (int (pos n)) (field "i" (str id) (field "qh" (str h) end)) in
    let decoded : decode_cursor lib text ≡ crash =
      ap (read_cursor lib) readable
      ∙ ap (λ b. read_fields lib (if b then some id else none) payload) (id_fits id long short)
      ∙ ap
          (λ b.
            with_value lib (λ v f. rank_cursor v id f)
              (if b then overflow else parsed (int (pos n))) (some (str h)))
          over in
    rw (resolve_cursor, decoded) refl
