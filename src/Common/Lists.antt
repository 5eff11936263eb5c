-- ===== src/Common/Lists.antt =====
-- Lists over the native numbers, with Boolean tests.
use Prim.Native.Nat.{ℕ, zero, suc, ◌+◌, ◌≤◌}
use mathlib.Core.Path.{◌≡◌, refl}
use mathlib.Core.Bool.{Bool, true, false, ◌||◌}
use mathlib.Core.Option
use mathlib.Core.Option.{Option, none, some}
use mathlib.Core.List.{List, [], ◌∷◌, ◌++◌}
use native.Mathlib.Omega.{arith}
use mathlib.Core.Logic.{◌⊎◌, inl, inr}
use animus_queue_default.Common.Bools.{Bool-cases, if◌then◌else◌}
use animus_queue_default.Common.Options.{Option-cases}

module _ {ℓ} {A : Type ℓ} where
  abbrev pub length : List A → ℕ
  length [] = 0
  length (x ∷ xs) = suc (length xs)

  abbrev pub take : ℕ → List A → List A
  take zero xs = []
  take (suc n) [] = []
  take (suc n) (x ∷ xs) = x ∷ take n xs

  abbrev pub drop : ℕ → List A → List A
  drop zero xs = xs
  drop (suc n) [] = []
  drop (suc n) (x ∷ xs) = drop n xs

  abbrev pub get_elem? : List A → ℕ → Option A
  get_elem? [] i = none
  get_elem? (x ∷ xs) zero = some x
  get_elem? (x ∷ xs) (suc i) = get_elem? xs i

  -- A write out of bounds changes nothing.
  abbrev pub set : List A → ℕ → A → List A
  set [] i v = []
  set (x ∷ xs) zero v = v ∷ xs
  set (x ∷ xs) (suc i) v = x ∷ set xs i v

  abbrev pub remove_at : List A → ℕ → List A
  remove_at [] i = []
  remove_at (x ∷ xs) zero = xs
  remove_at (x ∷ xs) (suc i) = x ∷ remove_at xs i

  abbrev pub is_empty : List A → Bool
  is_empty [] = true
  is_empty (x ∷ xs) = false

  module _ (p : A → Bool) where
    abbrev pub filter : List A → List A
    filter [] = []
    filter (x ∷ xs) = if p x then x ∷ filter xs else filter xs

    abbrev pub any : List A → Bool
    any [] = false
    any (x ∷ xs) = p x || any xs

    -- The first element that passes.
    abbrev pub find : List A → Option A
    find [] = none
    find (x ∷ xs) = if p x then some x else find xs

    -- The first element that passes, with its index.
    abbrev pub locate : List A → Option (ℕ × A)
    locate [] = none
    locate (x ∷ xs) =
        if p x
        then some (0, x)
        else Option.map (λ (found : ℕ × A). (suc found.0, found.1)) (locate xs)

  pub length-append : (xs ys : List A) → length (xs ++ ys) ≡ length xs + length ys
  length-append [] ys = omega arith
  length-append (x ∷ xs) ys = omega (arith, length-append xs ys)

  pub length-set : (xs : List A) (i : ℕ) (v : A) → length (set xs i v) ≡ length xs
  length-set [] i v = refl
  length-set (x ∷ xs) zero v = refl
  length-set (x ∷ xs) (suc i) v = omega (arith, length-set xs i v)

  pub get_elem?-set_self :
      (xs : List A) (i : ℕ) (v : A) {old : A}
      → get_elem? xs i ≡ some old
      → get_elem? (set xs i v) i ≡ some v
  get_elem?-set_self [] i v e = cc
  get_elem?-set_self (x ∷ xs) zero v e = refl
  get_elem?-set_self (x ∷ xs) (suc i) v e = get_elem?-set_self xs i v e

  -- What stands at an index after a write is the value written, or stood there before.
  pub get_elem?-set :
      (xs : List A) (i j : ℕ) (v e : A)
      → get_elem? (set xs i v) j ≡ some e
      → (e ≡ v) ⊎ (get_elem? xs j ≡ some e)
  get_elem?-set [] i j v e at = inr at
  get_elem?-set (x ∷ xs) zero zero v e at = inl (ground arith)
  get_elem?-set (x ∷ xs) zero (suc j) v e at = inr at
  get_elem?-set (x ∷ xs) (suc i) zero v e at = inr at
  get_elem?-set (x ∷ xs) (suc i) (suc j) v e at = get_elem?-set xs i j v e at

  pub set_beyond : (xs : List A) (i : ℕ) (v : A) → get_elem? xs i ≡ none → set xs i v ≡ xs
  set_beyond [] i v e = refl
  set_beyond (x ∷ xs) zero v e = cc
  set_beyond (x ∷ xs) (suc i) v e = ground (arith, set_beyond xs i v e)

  pub length-filter-le : (p : A → Bool) (xs : List A) → length (filter p xs) ≤ length xs
  length-filter-le p [] = omega arith
  length-filter-le p (x ∷ xs) = ground (arith, length-filter-le p xs)

module _ {ℓ κ} {A : Type ℓ} (P : A → Type κ) where
  abbrev pub All : List A → Type κ
  All [] = Unit
  All (x ∷ xs) = P x × All xs

  pub All-append : (xs ys : List A) → All xs → All ys → All (xs ++ ys)
  All-append [] ys h k = k
  All-append (x ∷ xs) ys h k = (h.0, All-append xs ys h.1 k)

  pub All-filter : (p : A → Bool) (xs : List A) → All xs → All (filter p xs)
  All-filter p [] h = tt
  All-filter p (x ∷ xs) h = ground (arith, All-filter p xs h.1)

  pub All-set : (xs : List A) (i : ℕ) (v : A) → All xs → P v → All (set xs i v)
  All-set [] i v h p = tt
  All-set (x ∷ xs) zero v h p = (p, h.1)
  All-set (x ∷ xs) (suc i) v h p = (h.0, All-set xs i v h.1 p)

  pub All-remove_at : (xs : List A) (i : ℕ) → All xs → All (remove_at xs i)
  All-remove_at [] i h = tt
  All-remove_at (x ∷ xs) zero h = h.1
  All-remove_at (x ∷ xs) (suc i) h = (h.0, All-remove_at xs i h.1)

  pub All-get_elem? : (xs : List A) (i : ℕ) (x : A) → All xs → get_elem? xs i ≡ some x → P x
  All-get_elem? [] i x h e = cc
  All-get_elem? (y ∷ xs) zero x h e = ground arith
  All-get_elem? (y ∷ xs) (suc i) x h e = All-get_elem? xs i x h.1 e

module _ {ℓ} {A : Type ℓ} (p : A → Bool) where
  -- The element that `locate` gives stands at the index that it gives, and passes.
  pub locate_lem :
      (xs : List A) (i : ℕ) (a : A)
      → locate p xs ≡ some (i, a)
      → (get_elem? xs i ≡ some a) × (p a ≡ true)
  locate_lem [] i a e = cc
  locate_lem (x ∷ xs) i a e = elim (Option-cases (locate p xs)) [
    | inl f ↦ ground arith
    | inr ((j, b), f) ↦ ground (arith, locate_lem xs j b f)
  ]

  -- A write at the place that `locate` gives is found there, if it passes.
  pub locate-set :
      (xs : List A) (i : ℕ) (a b : A)
      → locate p xs ≡ some (i, a)
      → p b ≡ true
      → locate p (set xs i b) ≡ some (i, b)
  locate-set [] i a b e h = cc
  locate-set (x ∷ xs) i a b e h = elim (Bool-cases (p x)) [
    | inl hit ↦ ground arith
    | inr miss ↦ elim (Option-cases (locate p xs)) [
      | inl f ↦ ground arith
      | inr ((j, c), f) ↦ ground (arith, locate-set xs j c b f h)
    ]
  ]
