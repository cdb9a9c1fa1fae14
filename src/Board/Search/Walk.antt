-- ===== src/Board/Search/Walk.antt =====
-- app/api/routes/listings.py: a client that follows the cursors of a search on an unchanging table and on one
-- clock, from the text of each cursor to the next page.
use agent_discovery_board.Prelude.{
  ℕ, zero, suc, ◌≤◌, ◌<◌, String, ◌≡◌, refl, sym, ap, ◌∙◌, inl, inr, Bool, true, false, Option,
  none, some, List, [], ◌∷◌, ◌++◌, arith, ltb, ◌==◌, if◌then◌else◌, Bool-cases, Option-cases,
  or_else, length, keep, all, length-keep-le, All, str_len, Json, str, obj,
}
use agent_discovery_board.Prelude.{field, end}
use mathlib.Core.Path.{subst}
use agent_discovery_board.Errors.{Result, ok, err, crash}
use agent_discovery_board.WalletAuth.{parsed}
use agent_discovery_board.Listing.{Listing}
use agent_discovery_board.Activity.{last_activity_at}
use agent_discovery_board.Pagination.{AnyCursor, query_fingerprint, to_float, resolve_cursor}
use agent_discovery_board.Pagination.Binding.{activity_returns, rank_returns, similarity_returns}
use agent_discovery_board.Search.{
  Filter, matches, Mode, by_activity, by_rank, by_similarity, Place, place_of, sort_rows, Found,
  page_of, no_page, fallback_threshold, choose_mode, list_listings, is_bindable, cursor_texts,
  last_row,
}
use agent_discovery_board.Search.Order.{HasOwnIds, sort_rows-All}
use agent_discovery_board.Search.Pages.{
  keep-All, keep-HasOwnIds, append_nil, length-sort_rows, Follows, Follows-first, last_page,
  page_before, turn,
}
use agent_discovery_board.Board.Search.{
  SearchLibrary, cursor_for, next_cursor, with_cursor, page_from, read_page,
}

-- The rows of a page, and those that `follow` gets by its cursor.
abbrev rows_of : (String → List Listing) → Result (Found × Option String) → List Listing
rows_of follow (err e) = []
rows_of follow crash = []
rows_of follow (ok (found, none)) = found.rows ++ []
rows_of follow (ok (found, some c)) = found.rows ++ follow c

-- The rows that the client gets, from `fuel` pages at most.
unfoldable pub walk :
    SearchLibrary
    → Filter
    → (now : ℕ) → Option String
    → (limit : ℕ) → List Listing
    → ℕ
    → Option String
    → List Listing
walk lib f now q limit rows zero cursor = []
walk lib f now q limit rows (suc fuel) cursor =
    rows_of (λ c. walk lib f now q limit rows fuel (some c))
      (read_page lib f now q cursor limit 0 rows)

-- The payload of a row's cursor.
abbrev pub payload : SearchLibrary → Mode → String → Listing → Json
payload lib by_activity q r =
    obj (field "a" (str (lib.cursors.isoformat (last_activity_at r))) (field "i" (str r.id) end))
payload lib by_rank q r = obj (
    field "r" (lib.engine.write_score (lib.engine.rank q r))
      (field "i" (str r.id) (field "qh" (str (query_fingerprint lib.cursors q)) end)))
payload lib by_similarity q r = obj (
    field "s" (lib.engine.write_score (lib.engine.similarity q r))
      (field "i" (str r.id) (field "qh" (str (query_fingerprint lib.cursors q)) end)))

-- The number of a row's score, as JSON and back.
pub record IsReadBack (lib : SearchLibrary) (score : ℕ) : Type 0 where
  pub is_float :
      to_float lib.cursors (lib.engine.write_score score) ≡ parsed (lib.engine.write_score score)
  pub same : lib.engine.read_score (lib.engine.write_score score) ≡ score

-- What the cursors of a row rest on: the id has 1 to 64 characters, and base64, JSON, the ISO format and
-- the numbers read back what they wrote of the row, and psycopg takes the id.
pub record IsReadable (lib : SearchLibrary) (q : String) (r : Listing) : Type 0 where
  pub long : 1 ≤ str_len r.id
  pub short : str_len r.id ≤ 64
  pub decodes : (m : Mode) → lib.cursors.decode (cursor_for lib m q r) ≡ some (payload lib m q r)
  pub zoned :
      lib.cursors.fromisoformat (lib.cursors.isoformat (last_activity_at r))
      ≡ some (last_activity_at r, true)
  pub rank_back : IsReadBack lib (lib.engine.rank q r)
  pub similarity_back : IsReadBack lib (lib.engine.similarity q r)
  pub taken : lib.takes r.id ≡ true

All-append : (P : Listing → Type 0) (xs ys : List Listing) → All P (xs ++ ys) → All P xs × All P ys
All-append P [] ys h = (tt, h)
All-append P (x ∷ xs) ys (p, h) = let (a, b) = All-append P xs ys h in ((p, a), b)

All-last :
    (P : Listing → Type 0) (xs : List Listing) (r : Listing) → All P xs → last_row xs ≡ some r → P r
unfolding last_row
All-last P [] r h e = absurd (ground arith)
All-last P (x ∷ xs) r (p, h) e = elim (Option-cases (last_row xs)) [
  | inl n ↦ subst P (ground (arith, n, e)) p
  | inr (y, n) ↦ All-last P xs r h (n ∙ ground (arith, n, e))
]

module _ (lib : SearchLibrary) (f : Filter) (now : ℕ) (q : Option String) (limit : ℕ)
    (rows : List Listing) (some_rows : 0 < limit)
    (bindable : is_bindable lib.takes lib.engine f q none 0 ≡ true) where
  abbrev text : String
  text = or_else q ""

  abbrev Good : Listing → Type 0
  Good = IsReadable lib text

  abbrev GoodAt : Option Listing → Type 0
  GoodAt none = Unit
  GoodAt (some r) = Good r

  -- The search is served in one mode: every page is one of `found`, sorted by `score`.
  module _ (m : Mode) (score : Listing → ℕ) (logged : Option String) (found : List Listing) where
    abbrev text_at : Option Listing → Option String
    text_at none = none
    text_at (some r) = some (cursor_for lib m text r)

    abbrev place_at : Option Listing → Option Place
    place_at none = none
    place_at (some r) = some (place_of score r)

    abbrev IsServed : Type 0
    IsServed =
        (p : Option Listing)
        → GoodAt p
        → read_page lib f now q (text_at p) limit 0 rows
          ≡ with_cursor lib q (some (page_of limit 0 score m logged (place_at p) found))

    walk_from :
        (fuel : ℕ) (p : Option Listing) (rest : List Listing)
        → IsServed
        → HasOwnIds found
        → GoodAt p
        → Follows score found (place_at p) rest
        → All Good rest
        → length rest ≤ fuel
        → walk lib f now q limit rows fuel (text_at p) ≡ rest
    unfolding walk page_of next_cursor
    walk_from zero p [] served own good follows readable enough = refl
    walk_from zero p (x ∷ xs) served own good follows readable enough =
        absurd (omega (arith, enough))
    walk_from (suc fuel) p rest served own good follows readable enough =
        let follow : String → List Listing = λ c. walk lib f now q limit rows fuel (some c) in
        elim (turn score found limit (place_at p) rest some_rows own follows) [
          | last_page all done ↦
              ap (rows_of follow) (served p good) ∙ rw (all, done) (append_nil rest)
          | page_before page last back first more ends whole follows' shorter ↦
              let (here, later) =
                All-append Good page back (subst (All Good) (sym whole) readable) in
              let next =
                walk_from fuel (some last) back served own (All-last Good page last here ends)
                  follows' later (omega (arith, shorter, enough)) in
              ap (rows_of follow) (served p good) ∙ rw (first, more, ends, next) whole
        ]

    walk_found :
        IsServed
        → HasOwnIds rows
        → HasOwnIds found
        → All Good found
        → length found ≤ length rows
        → walk lib f now q limit rows (length rows) none ≡ sort_rows score found
    walk_found served own_rows own readable fewer =
        walk_from (length rows) none (sort_rows score found) served own tt
          (Follows-first score found) (sort_rows-All score Good found readable)
          (omega (arith, length-sort_rows score found, fewer))

  abbrev matching : List Listing
  matching = keep (matches f lib.view.stale_after now) rows

  abbrev listed : Option AnyCursor → Option Found
  listed c = list_listings lib.engine f lib.view.stale_after now q c limit 0 rows

  read_at :
      (cursor : Option String) (c : Option AnyCursor)
      → resolve_cursor lib.cursors cursor q ≡ ok c
      → is_bindable lib.takes lib.engine f q c 0 ≡ true
      → read_page lib f now q cursor limit 0 rows ≡ with_cursor lib q (listed c)
  unfolding read_page
  read_at cursor c e taken = ap (page_from lib f now q limit 0 rows) e ∙ rw taken refl

  bindable_at :
      (c : Option AnyCursor)
      → all lib.takes (cursor_texts c) ≡ true
      → is_bindable lib.takes lib.engine f q c 0 ≡ true
  unfolding is_bindable
  bindable_at c taken = ground (arith, bindable, taken)

  serves_page :
      (cursor : Option String) (c : Option AnyCursor) {page : Found}
      → resolve_cursor lib.cursors cursor q ≡ ok c
      → all lib.takes (cursor_texts c) ≡ true
      → listed c ≡ some page
      → read_page lib f now q cursor limit 0 rows ≡ with_cursor lib q (some page)
  serves_page cursor c e taken h =
      read_at cursor c e (bindable_at c taken) ∙ ap (with_cursor lib q) h

  id_taken : (r : Listing) → Good r → all lib.takes (r.id ∷ []) ≡ true
  id_taken r good = rw good.taken refl

  browse_served : (text == "") ≡ true → IsServed by_activity last_activity_at none matching
  unfolding list_listings resolve_cursor place_of cursor_for
  browse_served browse none good = serves_page none none refl refl (rw browse refl)
  browse_served browse (some r) good =
      let back =
        activity_returns lib.cursors r.id good.long good.short (last_activity_at r) q
          (good.decodes by_activity) good.zoned browse in
      serves_page (some (cursor_for lib by_activity text r)) _ back (id_taken r good)
        (rw browse refl)

  module _ (asked : (text == "") ≡ false) where
    is_asked : (p : Option String) → (or_else p "" == "") ≡ false → p ≡ some (or_else p "")
    is_asked none e = absurd (ground arith)
    is_asked (some t) e = refl

    rank_served :
        ltb fallback_threshold (length (keep (lib.engine.is_match text) matching)) ≡ true
        → IsServed by_rank
            (lib.engine.rank text)
            (some text)
            (keep (lib.engine.is_match text) matching)
    unfolding list_listings resolve_cursor place_of cursor_for choose_mode
    rank_served hits none good = serves_page none none refl refl (rw (asked, hits) refl)
    rank_served hits (some r) good =
        let back =
          rank_returns lib.cursors r.id good.long good.short
            (lib.engine.write_score (lib.engine.rank text r)) text good.rank_back.is_float asked
            (good.decodes by_rank) in
        serves_page (some (cursor_for lib by_rank text r)) _
          (ap (resolve_cursor lib.cursors (some (cursor_for lib by_rank text r))) (is_asked q asked)
            ∙ back)
          (id_taken r good) (rw (asked, good.rank_back.same) refl)

    similarity_served :
        ltb fallback_threshold (length (keep (lib.engine.is_match text) matching)) ≡ false
        → lib.engine.trigram_available ≡ true
        → IsServed by_similarity
            (lib.engine.similarity text)
            (some text)
            (keep (lib.engine.is_similar text) matching)
    unfolding list_listings resolve_cursor place_of cursor_for choose_mode
    similarity_served hits trigrams none good =
        serves_page none none refl refl (rw (asked, hits, trigrams) refl)
    similarity_served hits trigrams (some r) good =
        let back =
          similarity_returns lib.cursors r.id good.long good.short
            (lib.engine.write_score (lib.engine.similarity text r)) text
            good.similarity_back.is_float asked (good.decodes by_similarity) in
        serves_page (some (cursor_for lib by_similarity text r)) _
          (ap (resolve_cursor lib.cursors (some (cursor_for lib by_similarity text r)))
              (is_asked q asked)
            ∙ back)
          (id_taken r good) (rw (asked, trigrams, good.similarity_back.same) refl)

  -- Where pg_trgm is missing a search without a full-text match finds nothing.
  nothing :
      (text == "") ≡ false
      → ltb fallback_threshold (length (keep (lib.engine.is_match text) matching)) ≡ false
      → lib.engine.trigram_available ≡ false
      → (fuel : ℕ) → walk lib f now q limit rows fuel none ≡ []
  unfolding walk list_listings resolve_cursor choose_mode next_cursor
  nothing asked hits trigrams zero = refl
  nothing asked hits trigrams (suc fuel) =
      ap (rows_of (λ c. walk lib f now q limit rows fuel (some c))) (
        serves_page none none {page = no_page limit 0 by_similarity text} refl refl
          (rw (asked, hits, trigrams) refl))

-- All rows of a search, in its order: without a query the newest activity first; with one those of the
-- full-text match by their rank, or if there is none those that are similar, the most similar first.
unfoldable pub results :
    SearchLibrary → Filter → (now : ℕ) → Option String → List Listing → List Listing
results lib f now q rows =
    let text = or_else q "" in
    let matching = keep (matches f lib.view.stale_after now) rows in
    let full_text = keep (lib.engine.is_match text) matching in
    if text == ""
    then sort_rows last_activity_at matching
    else (if ltb 0 (length full_text)
        then sort_rows (lib.engine.rank text) full_text
        else (if lib.engine.trigram_available
            then sort_rows (lib.engine.similarity text) (keep (lib.engine.is_similar text) matching)
            else []))

-- On an unchanging table with distinct ids, and on one clock, a client that starts without a cursor and
-- follows the cursors, with any positive limit and with or without a query, gets every row of the
-- search exactly once and in its order, after at most as many pages as there are rows, where psycopg
-- takes the texts of the search and the cursors of the rows can be read back.
pub walk_complete :
    (lib : SearchLibrary) (f : Filter) (now : ℕ) (q : Option String) (limit : ℕ)
    (rows : List Listing)
    → 0 < limit
    → is_bindable lib.takes lib.engine f q none 0 ≡ true
    → HasOwnIds rows
    → All (IsReadable lib (or_else q "")) rows
    → walk lib f now q limit rows (length rows) none ≡ results lib f now q rows
unfolding results
walk_complete lib f now q limit rows some_rows bindable own readable =
    let text = or_else q "" in
    let m = matches f lib.view.stale_after now in
    let matching = keep m rows in
    let own' = keep-HasOwnIds m rows own in
    let readable' = keep-All (IsReadable lib text) m rows readable in
    let fewer = length-keep-le m rows in
    let is_match = lib.engine.is_match text in
    let is_similar = lib.engine.is_similar text in
    elim (Bool-cases (text == "")) [
      | inl browse ↦ rw browse (
          walk_found lib f now q limit rows some_rows bindable by_activity last_activity_at none
            matching (browse_served lib f now q limit rows some_rows bindable browse) own own'
            readable' fewer)
      | inr asked ↦ elim (Bool-cases (ltb 0 (length (keep is_match matching)))) [
        | inl hits ↦
            rw (asked, hits)
              (walk_found lib f now q limit rows some_rows bindable by_rank (lib.engine.rank text)
                (some text) (keep is_match matching)
                (rank_served lib f now q limit rows some_rows bindable asked hits) own
                (keep-HasOwnIds is_match matching own')
                (keep-All (IsReadable lib text) is_match matching readable')
                (omega (arith, fewer, length-keep-le is_match matching)))
        | inr hits ↦
            let similar = sort_rows (lib.engine.similarity text) (keep is_similar matching) in
            let branch : Bool → List Listing = λ b. if b then similar else [] in
            rw (asked, hits)
              (elim (Bool-cases lib.engine.trigram_available) [
                | inl trigrams ↦
                    walk_found lib f now q limit rows some_rows bindable by_similarity
                      (lib.engine.similarity text) (some text) (keep is_similar matching)
                      (similarity_served lib f now q limit rows some_rows bindable asked hits
                        trigrams)
                      own (keep-HasOwnIds is_similar matching own')
                      (keep-All (IsReadable lib text) is_similar matching readable')
                      (omega (arith, fewer, length-keep-le is_similar matching))
                    ∙ ap branch (sym trigrams)
                | inr trigrams ↦
                    nothing lib f now q limit rows some_rows bindable asked hits trigrams
                      (length rows)
                    ∙ ap branch (sym trigrams)
              ])
      ]
    ]
