-- ===== src/Search/Order.antt =====
-- app/core/db.py: the order of the listings is total on distinct ids, and the sorted table is strictly
-- descending.
use agent_discovery_board.Prelude.{
  ℕ, String, ◌≡◌, sym, inl, inr, true, false, List, [], ◌∷◌, arith, ◌==◌, eq_iff, Bool-cases, All,
  le_str,
}
use agent_discovery_board.Listing.{Listing}
use agent_discovery_board.Search.{Place, place_of, is_before, insert_row, sort_rows}
use agent_discovery_board.TextOrder.{le_str_refl, le_str_total, le_str_trans, le_str_antisym}

pub is_before_asym : (a b : Place) → is_before a b ≡ true → is_before b a ≡ false
unfolding is_before
is_before_asym a b e = ground (arith, le_str_total a.id b.id)

pub is_before_irrefl : (a : Place) → is_before a a ≡ false
unfolding is_before
is_before_irrefl a = ground (arith, le_str_refl a.id)

is_before_trans :
    (a b c : Place) → is_before a b ≡ true → is_before b c ≡ true → is_before a c ≡ true
unfolding is_before
is_before_trans a b c e f = ground (arith, le_str_trans c.id a.id b.id, le_str_total b.id a.id)

is_before_total :
    (a b : Place) → (a.id == b.id) ≡ false → is_before a b ≡ false → is_before b a ≡ true
unfolding is_before
is_before_total a b other e = elim (Bool-cases (le_str a.id b.id)) [
  | inr h ↦ ground (arith, h, e, le_str_total a.id b.id h)
  | inl h ↦ elim (Bool-cases (le_str b.id a.id)) [
    | inl k ↦ absurd (ground (arith, other, (eq_iff a.id b.id).1 (le_str_antisym a.id b.id h k)))
    | inr k ↦ ground (arith, h, k, e)
  ]
]

-- Rows without an id of their own.
abbrev pub HasOtherId : Listing → Listing → Type 0
HasOtherId r x = (r.id == x.id) ≡ false

eq_comm : (a b : String) → (a == b) ≡ false → (b == a) ≡ false
eq_comm a b e = elim (Bool-cases (b == a)) [
  | inr k ↦ k
  | inl k ↦ absurd (ground (arith, e, (eq_iff a b).1 (sym ((eq_iff b a).0 k))))
]

-- No two rows have the same id.
abbrev pub HasOwnIds : List Listing → Type 0
HasOwnIds [] = Unit
HasOwnIds (r ∷ rs) = All (HasOtherId r) rs × HasOwnIds rs

module _ (score : Listing → ℕ) where
  -- Every row comes before all that follow it.
  abbrev pub IsDescending : List Listing → Type 0
  IsDescending [] = Unit
  IsDescending (x ∷ xs) =
      All (λ y. is_before (place_of score y) (place_of score x) ≡ true) xs × IsDescending xs

  above :
      (r x : Listing) (xs : List Listing)
      → is_before (place_of score x) (place_of score r) ≡ true
      → All (λ y. is_before (place_of score y) (place_of score x) ≡ true) xs
      → All (λ y. is_before (place_of score y) (place_of score r) ≡ true) xs
  above r x [] h hs = tt
  above r x (y ∷ ys) h (k, hs) = (
    is_before_trans (place_of score y) (place_of score x) (place_of score r) k h,
    above r x ys h hs,
  )

  pub insert_row-All :
      (P : Listing → Type 0) (r : Listing) (xs : List Listing)
      → P r
      → All P xs
      → All P (insert_row score r xs)
  unfolding insert_row
  insert_row-All P r [] p h = (p, tt)
  insert_row-All P r (x ∷ xs) p (q, h) =
      elim (Bool-cases (is_before (place_of score x) (place_of score r))) [
        | inl e ↦ rw e (p, (q, h))
        | inr e ↦ rw e (q, insert_row-All P r xs p h)
      ]

  insert_row-IsDescending :
      (r : Listing) (xs : List Listing)
      → All (HasOtherId r) xs
      → IsDescending xs
      → IsDescending (insert_row score r xs)
  unfolding insert_row place_of
  insert_row-IsDescending r [] other d = (tt, tt)
  insert_row-IsDescending r (x ∷ xs) (o, other) (h, d) =
      elim (Bool-cases (is_before (place_of score x) (place_of score r))) [
        | inl e ↦ rw e ((e, above r x xs e h), (h, d))
        | inr e ↦ rw e (
          insert_row-All (λ y. is_before (place_of score y) (place_of score x) ≡ true) r xs
              (is_before_total (place_of score x) (place_of score r) (eq_comm r.id x.id o) e) h,
          insert_row-IsDescending r xs other d,
        )
      ]

  pub sort_rows-All :
      (P : Listing → Type 0) (rs : List Listing) → All P rs → All P (sort_rows score rs)
  unfolding sort_rows
  sort_rows-All P [] h = tt
  sort_rows-All P (r ∷ rs) (p, h) = insert_row-All P r (sort_rows score rs) p (sort_rows-All P rs h)

  pub sort_rows-IsDescending :
      (rs : List Listing) → HasOwnIds rs → IsDescending (sort_rows score rs)
  unfolding sort_rows
  sort_rows-IsDescending [] h = tt
  sort_rows-IsDescending (r ∷ rs) (other, h) =
      insert_row-IsDescending r (sort_rows score rs) (sort_rows-All (HasOtherId r) rs other)
        (sort_rows-IsDescending rs h)
