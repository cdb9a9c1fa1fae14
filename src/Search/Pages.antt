-- ===== src/Search/Pages.antt =====
-- app/core/db.py: a page after a row holds the rows that follow it in the sorted table.
use agent_discovery_board.Prelude.{
  ℕ, zero, suc, ◌+◌, ◌-◌, ◌<◌, ◌≡◌, refl, sym, ap, ◌∙◌, inl, inr, Bool, true, false, Option, none,
  some, List, [], ◌∷◌, ◌++◌, arith, ltb, Bool-cases, length, take, drop, keep, All,
}
use mathlib.Core.Path.{subst}
use agent_discovery_board.Listing.{Listing}
use agent_discovery_board.Search.{
  Place, place_of, is_before, is_after, insert_row, sort_rows, paged, last_row,
}
use agent_discovery_board.Search.Order.{
  IsDescending, HasOwnIds, HasOtherId, is_before_asym, is_before_irrefl, sort_rows-IsDescending,
}

pub append_nil : (xs : List Listing) → xs ++ [] ≡ xs
append_nil [] = refl
append_nil (x ∷ xs) = ap (λ ys. x ∷ ys) (append_nil xs)

append_assoc : (xs ys zs : List Listing) → (xs ++ ys) ++ zs ≡ xs ++ (ys ++ zs)
append_assoc [] ys zs = refl
append_assoc (x ∷ xs) ys zs = ap (λ ws. x ∷ ws) (append_assoc xs ys zs)

take-drop : (n : ℕ) (xs : List Listing) → take n xs ++ drop n xs ≡ xs
take-drop zero xs = refl
take-drop (suc n) [] = refl
take-drop (suc n) (x ∷ xs) = ap (λ ys. x ∷ ys) (take-drop n xs)

take-take : (n : ℕ) (xs : List Listing) → take n (take (n + 1) xs) ≡ take n xs
take-take zero xs = refl
take-take (suc n) [] = let e : suc n + 1 ≡ suc (n + 1) = omega arith in rw e refl
take-take (suc n) (x ∷ xs) =
    let e : suc n + 1 ≡ suc (n + 1) = omega arith in rw e (ap (λ ys. x ∷ ys) (take-take n xs))

more_take : (n : ℕ) (xs : List Listing) → ltb n (length (take (n + 1) xs)) ≡ ltb n (length xs)
more_take zero [] = refl
more_take zero (x ∷ xs) = ground arith
more_take (suc n) [] = ground arith
more_take (suc n) (x ∷ xs) = ground (arith, more_take n xs)

take_short : (n : ℕ) (xs : List Listing) → ltb n (length xs) ≡ false → take n xs ≡ xs
take_short zero [] e = refl
take_short zero (x ∷ xs) e = absurd (ground arith)
take_short (suc n) [] e = refl
take_short (suc n) (x ∷ xs) e = ap (λ ys. x ∷ ys) (take_short n xs (ground (arith, e)))

length-drop : (n : ℕ) (xs : List Listing) → length (drop n xs) ≡ length xs - n
length-drop zero xs = omega arith
length-drop (suc n) [] = omega arith
length-drop (suc n) (x ∷ xs) = omega (arith, length-drop n xs)

more_rows : (n : ℕ) (xs : List Listing) → ltb n (length xs) ≡ true → n < length xs
more_rows n xs e = ground (arith, e)

-- A list by its last element.
record Snoc (xs : List Listing) : Type 0 where
  pub front : List Listing
  pub last : Listing
  pub split : xs ≡ front ++ last ∷ []
  pub found : last_row xs ≡ some last

snoc : (x : Listing) (xs : List Listing) → Snoc (x ∷ xs)
unfolding last_row
snoc x [] = record { front = []; last = x; split = refl; found = refl }
snoc x (y ∷ ys) =
    let s = snoc y ys in
    record {
      front = x ∷ s.front;
      last = s.last;
      split = ap (λ zs. x ∷ zs) s.split;
      found = rw s.found refl;
    }

take-Snoc : (n : ℕ) (xs : List Listing) → 0 < n → ltb n (length xs) ≡ true → Snoc (take n xs)
take-Snoc zero xs pos_n e = absurd (omega (arith, pos_n))
take-Snoc (suc n) [] pos_n e = absurd (ground (arith, e))
take-Snoc (suc n) (x ∷ xs) pos_n e = snoc x (take n xs)

pub keep-All :
    (P : Listing → Type 0) (p : Listing → Bool) (xs : List Listing) → All P xs → All P (keep p xs)
keep-All P p [] h = tt
keep-All P p (x ∷ xs) (q, h) = elim (Bool-cases (p x)) [
  | inl e ↦ rw e (q, keep-All P p xs h)
  | inr e ↦ rw e (keep-All P p xs h)
]

pub keep-HasOwnIds : (p : Listing → Bool) (xs : List Listing) → HasOwnIds xs → HasOwnIds (keep p xs)
keep-HasOwnIds p [] h = tt
keep-HasOwnIds p (x ∷ xs) (o, h) = elim (Bool-cases (p x)) [
  | inl e ↦ rw e (keep-All (HasOtherId x) p xs o, keep-HasOwnIds p xs h)
  | inr e ↦ rw e (keep-HasOwnIds p xs h)
]

All-at :
    (P : Listing → Type 0) (pre : List Listing) (x : Listing) (rest : List Listing)
    → All P (pre ++ x ∷ rest)
    → P x
All-at P [] x rest (p, h) = p
All-at P (z ∷ pre) x rest (p, h) = All-at P pre x rest h

module _ (score : Listing → ℕ) where
  keep_below :
      (c : Place) (rest : List Listing)
      → All (λ y. is_before (place_of score y) c ≡ true) rest
      → keep (is_after score (some c)) rest ≡ rest
  keep_below c [] h = refl
  keep_below c (y ∷ ys) (k, h) = rw (k, keep_below c ys h) refl

  -- The rows after a place are those that follow its row.
  keep_after :
      (pre : List Listing) (x : Listing) (rest : List Listing)
      → IsDescending score (pre ++ x ∷ rest)
      → keep (is_after score (some (place_of score x))) (pre ++ x ∷ rest) ≡ rest
  keep_after [] x rest (h, d) =
      rw (is_before_irrefl (place_of score x), keep_below (place_of score x) rest h) refl
  keep_after (z ∷ pre) x rest (h, d) =
      let k =
        is_before_asym (place_of score x) (place_of score z)
          (All-at (λ y. is_before (place_of score y) (place_of score z) ≡ true) pre x rest h) in
      rw (k, keep_after pre x rest d) refl

  keep_all : (xs : List Listing) → keep (is_after score none) xs ≡ xs
  keep_all [] = refl
  keep_all (x ∷ xs) = ap (λ ys. x ∷ ys) (keep_all xs)

  length-insert_row :
      (r : Listing) (xs : List Listing) → length (insert_row score r xs) ≡ length xs + 1
  unfolding insert_row
  length-insert_row r [] = refl
  length-insert_row r (x ∷ xs) = ground (arith, length-insert_row r xs)

  pub length-sort_rows : (rs : List Listing) → length (sort_rows score rs) ≡ length rs
  unfolding sort_rows
  length-sort_rows [] = refl
  length-sort_rows (r ∷ rs) =
      omega (arith, length-insert_row r (sort_rows score rs), length-sort_rows rs)

  -- `rest` is what follows a place in the sorted table.
  pub record Follows (found : List Listing) (place : Option Place) (rest : List Listing)
      : Type 0 where
    pub before : List Listing
    pub split : sort_rows score found ≡ before ++ rest
    pub after : keep (is_after score place) (sort_rows score found) ≡ rest

  pub Follows-first : (found : List Listing) → Follows found none (sort_rows score found)
  Follows-first found = record {
    before = [];
    split = refl;
    after = keep_all (sort_rows score found);
  }

  -- The page after a place: all that is left, or as many rows as the limit, the last of which has
  -- the place after which the rest follows.
  pub data Turn (found : List Listing) (limit : ℕ) (place : Option Place) (rest : List Listing)
      : Type 0 where
    last_page :
        take limit (paged score place limit 0 found) ≡ rest
        → ltb limit (length (paged score place limit 0 found)) ≡ false
        → Turn found limit place rest
    page_before :
        (page : List Listing) (last : Listing) (back : List Listing)
        → take limit (paged score place limit 0 found) ≡ page
        → ltb limit (length (paged score place limit 0 found)) ≡ true
        → last_row page ≡ some last
        → page ++ back ≡ rest
        → Follows found (some (place_of score last)) back
        → length back < length rest
        → Turn found limit place rest

  pub turn :
      (found : List Listing) (limit : ℕ) (place : Option Place) (rest : List Listing)
      → 0 < limit
      → HasOwnIds found
      → Follows found place rest
      → Turn found limit place rest
  unfolding paged
  turn found limit place rest some_rows own f = elim (Bool-cases (ltb limit (length rest))) [
    | inr done ↦
        last_page (rw f.after (take-take limit rest ∙ take_short limit rest done))
          (rw f.after (more_take limit rest ∙ done))
    | inl more ↦
        let v = take-Snoc limit rest some_rows more in
        let back = drop limit rest in
        let whole : rest ≡ v.front ++ v.last ∷ back =
          sym (take-drop limit rest)
          ∙ ap (λ ys. ys ++ back) v.split
          ∙ append_assoc v.front (v.last ∷ []) back in
        let s1 : sort_rows score found ≡ (f.before ++ v.front) ++ v.last ∷ back =
          f.split
          ∙ ap (λ ys. f.before ++ ys) whole
          ∙ sym (append_assoc f.before v.front (v.last ∷ back)) in
        page_before (take limit rest) v.last back (rw f.after (take-take limit rest))
          (rw f.after (more_take limit rest ∙ more)) v.found (take-drop limit rest)
          (record {
            before = (f.before ++ v.front) ++ v.last ∷ [];
            split = s1 ∙ sym (append_assoc (f.before ++ v.front) (v.last ∷ []) back);
            after =
                ap (keep (is_after score (some (place_of score v.last)))) s1
                ∙ keep_after (f.before ++ v.front) v.last back
                    (subst (IsDescending score) s1 (sort_rows-IsDescending score found own));
          })
          (omega (arith, length-drop limit rest, more_rows limit rest more, some_rows))
  ]
