-- ===== src/RequestHash/Order/Keys.antt =====
-- The order of `String`: it is total, transitive and antisymmetric.
use Prim.Native.Char.{Char, code}
use Prim.Native.String.{[], ◌∷◌}
use text.Mathlib.TextEquality.{Char-path}
use animus_queue_default.Common.{String, ◌≡◌, refl, true, false, arith, precedes}

pub precedes_total : (s t : String) → precedes s t ≡ false → precedes t s ≡ true
unfolding precedes
precedes_total [] t h = cc
precedes_total (c ∷ s) [] h = refl
precedes_total (c ∷ s) (d ∷ t) h = ground (arith, precedes_total s t)

pub precedes_trans :
    (s t u : String) → precedes s t ≡ true → precedes t u ≡ true → precedes s u ≡ true
unfolding precedes
precedes_trans [] t u h k = refl
precedes_trans (c ∷ s) [] u h k = cc
precedes_trans (c ∷ s) (d ∷ t) [] h k = cc
precedes_trans (c ∷ s) (d ∷ t) (e ∷ u) h k = ground (arith, precedes_trans s t u)

same_code : (c d : Char) (s t : String) → code c ≡ code d → s ≡ t → c ∷ s ≡ d ∷ t
same_code c d s t e f = λ i. Char-path c d e i ∷ f i

pub precedes_antisym : (s t : String) → precedes s t ≡ true → precedes t s ≡ true → s ≡ t
unfolding precedes
precedes_antisym [] [] h k = refl
precedes_antisym [] (d ∷ t) h k = cc
precedes_antisym (c ∷ s) [] h k = cc
precedes_antisym (c ∷ s) (d ∷ t) h k = ground (arith, precedes_antisym s t, same_code c d s t)
