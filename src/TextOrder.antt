-- ===== src/TextOrder.antt =====
-- The order of texts by code point is a total order.
use Prim.Native.Char.{code}
use text.Mathlib.TextEquality.{Char-path}
use agent_discovery_board.Prelude.{String, ◌≡◌, refl, ap, ◌∙◌, true, false, arith, le_str}

pub le_str_refl : (s : String) → le_str s s ≡ true
le_str_refl String.[] = refl
le_str_refl (String.◌∷◌ c s) = ground (arith, le_str_refl s)

pub le_str_total : (s t : String) → le_str s t ≡ false → le_str t s ≡ true
le_str_total String.[] t e = absurd (ground arith)
le_str_total (String.◌∷◌ c s) String.[] e = refl
le_str_total (String.◌∷◌ c s) (String.◌∷◌ d t) e = ground (arith, le_str_total s t)

pub le_str_trans : (s t u : String) → le_str s t ≡ true → le_str t u ≡ true → le_str s u ≡ true
le_str_trans String.[] t u e f = refl
le_str_trans (String.◌∷◌ c s) String.[] u e f = absurd (ground arith)
le_str_trans (String.◌∷◌ c s) (String.◌∷◌ d t) String.[] e f = absurd (ground arith)
le_str_trans (String.◌∷◌ c s) (String.◌∷◌ d t) (String.◌∷◌ b u) e f =
    ground (arith, le_str_trans s t u)

pub le_str_antisym : (s t : String) → le_str s t ≡ true → le_str t s ≡ true → s ≡ t
le_str_antisym String.[] String.[] e f = refl
le_str_antisym String.[] (String.◌∷◌ d t) e f = absurd (ground arith)
le_str_antisym (String.◌∷◌ c s) String.[] e f = absurd (ground arith)
le_str_antisym (String.◌∷◌ c s) (String.◌∷◌ d t) e f =
    let same : code c ≡ code d = ground (arith, e, f) in
    let rest : s ≡ t = le_str_antisym s t (ground (arith, same, e)) (ground (arith, same, f)) in
    ap (λ x. String.◌∷◌ x s) (Char-path c d same) ∙ ap (λ x. String.◌∷◌ d x) rest
