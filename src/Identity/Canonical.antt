-- ===== src/Identity/Canonical.antt =====
-- A canonical id of src/identity.rs is its own canonical id.
use Prim.Native.Char.{Char}
use Prim.Native.String.{[], ◌∷◌}
use Prim.Native.String.append
use animus_queue_default.Common.{
  ◌≡◌, refl, sym, ap, subst, ◌∙◌, String, Bool, true, false, ◌||◌, not, Option, none, some, arith,
  is_blank, trim, trim_start, trim_end, cons_unless_blank, is_whitespace, ◌<>◌, ok, Bool-cases, inl,
  inr,
}
use animus_queue_default.Identity.{
  strip_prefix_ignore_case, native_of, short_kind, canonical_subject_id,
}

-- No white space in front.
abbrev is_flush : String → Bool
is_flush [] = true
is_flush (c ∷ s) = not (is_whitespace c)

-- No white space behind.
abbrev IsEnded : String → Type 0
IsEnded s = trim_end s ≡ s

is_flush-trim_start : (s : String) → is_flush (trim_start s) ≡ true
unfolding trim_start
is_flush-trim_start [] = refl
is_flush-trim_start (c ∷ s) = ground (arith, is_flush-trim_start s)

trim_start-is_flush : (s : String) → is_flush s ≡ true → trim_start s ≡ s
unfolding trim_start
trim_start-is_flush [] h = refl
trim_start-is_flush (c ∷ s) h = ground arith

is_flush-cons :
    (c : Char) (t : String) → not (is_whitespace c) ≡ true → is_flush (cons_unless_blank c t) ≡ true
unfolding cons_unless_blank
is_flush-cons c [] h = ground arith
is_flush-cons c (d ∷ t) h = h

is_flush-trim_end : (s : String) → is_flush s ≡ true → is_flush (trim_end s) ≡ true
unfolding trim_end
is_flush-trim_end [] h = refl
is_flush-trim_end (c ∷ s) h = is_flush-cons c (trim_end s) h

cons-IsEnded : (c : Char) (t : String) → IsEnded t → IsEnded (cons_unless_blank c t)
unfolding trim_end cons_unless_blank
cons-IsEnded c [] h = elim (Bool-cases (is_whitespace c)) [
  | inl space ↦ rw space refl
  | inr ink ↦ rw ink (rw ink refl)
]
cons-IsEnded c (d ∷ t) h = ground (arith, h)

trim_end-IsEnded : (s : String) → IsEnded (trim_end s)
unfolding trim_end
trim_end-IsEnded [] = refl
trim_end-IsEnded (c ∷ s) = cons-IsEnded c (trim_end s) (trim_end-IsEnded s)

abbrev rest_of : String → String
rest_of [] = []
rest_of (c ∷ s) = s

rest_of-cons : (c : Char) → rest_of (cons_unless_blank c "") ≡ ""
unfolding cons_unless_blank
rest_of-cons c = elim (Bool-cases (is_whitespace c)) [
  | inl space ↦ rw space refl
  | inr ink ↦ rw ink refl
]

tail_of : (c : Char) (s t : String) → trim_end s ≡ t → cons_unless_blank c t ≡ c ∷ s → t ≡ s
unfolding cons_unless_blank
tail_of c s [] e h = sym (rest_of-cons c) ∙ ap rest_of h
tail_of c s (d ∷ t) e h = ap rest_of h

tail-IsEnded : (c : Char) (s : String) → IsEnded (c ∷ s) → IsEnded s
unfolding trim_end
tail-IsEnded c s h = tail_of c s (trim_end s) refl h

stripped-IsEnded :
    (p s rest : String) → strip_prefix_ignore_case p s ≡ some rest → IsEnded s → IsEnded rest
unfolding strip_prefix_ignore_case
stripped-IsEnded [] s rest e h = ground arith
stripped-IsEnded (c ∷ p) [] rest e h = ground arith
stripped-IsEnded (c ∷ p) (d ∷ s) rest e h =
    ground (arith, stripped-IsEnded p s rest, tail-IsEnded d s h)

nil_append : (s : String) → "" <> s ≡ s
nil_append s = append.nil s

cons_append : (c : Char) (p s : String) → (c ∷ p) <> s ≡ c ∷ (p <> s)
cons_append c p s = append.cons c p s

filled_append : (p s : String) → is_blank s ≡ false → is_blank (p <> s) ≡ false
filled_append [] s n = ground (arith, nil_append s)
filled_append (c ∷ p) s n = ground (arith, cons_append c p s)

cons-filled : (c : Char) (s : String) → is_blank s ≡ false → cons_unless_blank c s ≡ c ∷ s
unfolding cons_unless_blank
cons-filled c [] n = cc
cons-filled c (d ∷ s) n = refl

append-IsEnded : (p s : String) → is_blank s ≡ false → IsEnded s → IsEnded (p <> s)
unfolding trim_end
append-IsEnded [] s n h = rw (nil_append s) h
append-IsEnded (c ∷ p) s n h = rw (cons_append c p s) (
    ap (cons_unless_blank c) (append-IsEnded p s n h)
    ∙ cons-filled c (p <> s) (filled_append p s n))

append-is_flush : (p s : String) → is_blank p ≡ false → is_flush p ≡ true → is_flush (p <> s) ≡ true
append-is_flush [] s n h = cc
append-is_flush (c ∷ p) s n h = rw (cons_append c p s) h

blank_append : (p s : String) → is_blank p ≡ false → is_blank (p <> s) ≡ false
blank_append [] s n = cc
blank_append (c ∷ p) s n = ground (arith, cons_append c p s)

strip_prefix-append : (p s : String) → strip_prefix_ignore_case p (p <> s) ≡ some s
unfolding strip_prefix_ignore_case
strip_prefix-append [] s = ap some (nil_append s)
strip_prefix-append (c ∷ p) s = rw (cons_append c p s) (ground (arith, strip_prefix-append p s))

native-IsEnded :
    (id : String) (stripped : Option String) (p : String)
    → strip_prefix_ignore_case p id ≡ stripped
    → IsEnded id
    → IsEnded (native_of id stripped)
unfolding native_of
native-IsEnded id none p e h = h
native-IsEnded id (some rest) p e h = stripped-IsEnded p id rest e h

trim-stays : (s : String) → is_flush s ≡ true → IsEnded s → trim s ≡ s
unfolding trim
trim-stays s f h = ap trim_end (trim_start-is_flush s f) ∙ h

trim-is_flush : (s : String) → is_flush (trim s) ≡ true
unfolding trim
trim-is_flush s = is_flush-trim_end (trim_start s) (is_flush-trim_start s)

trim-IsEnded : (s : String) → IsEnded (trim s)
unfolding trim
trim-IsEnded s = trim_end-IsEnded (trim_start s)

-- The id that a kind and a native id make, given again with the same kind.
canonical_again :
    (raw kind native : String)
    → trim (short_kind raw) ≡ kind
    → is_blank kind ≡ false
    → is_blank native ≡ false
    → IsEnded native
    → canonical_subject_id raw (kind <> ":" <> native) ≡ ok (kind <> ":" <> native)
unfolding canonical_subject_id native_of
canonical_again raw kind native k n m h = ground (
  arith,
  k,
  n,
  m,
  trim-stays (kind <> ":" <> native)
      (append-is_flush (kind <> ":") native (blank_append kind ":" n) (
        append-is_flush kind ":" n
          (subst (λ k. is_flush k ≡ true) k (trim-is_flush (short_kind raw)))))
      (append-IsEnded (kind <> ":") native m h),
  filled_append (kind <> ":") native m,
  strip_prefix-append (kind <> ":") native,
)

-- If a kind and an id have a canonical id, then that kind and the canonical id have the same one:
-- a prefix is never added twice.
pub canonical_subject_id-again :
    (kind id canonical : String)
    → canonical_subject_id kind id ≡ ok canonical
    → canonical_subject_id kind canonical ≡ ok canonical
unfolding canonical_subject_id
canonical_subject_id-again kind id canonical e =
    let k = trim (short_kind kind) in
    let native = native_of (trim id) (strip_prefix_ignore_case (k <> ":") (trim id)) in
    elim (Bool-cases (is_blank k || is_blank (trim id))) [
      | inl blank ↦ ground (arith)
      | inr filled ↦ elim (Bool-cases (is_blank native)) [
        | inl blank ↦ ground (arith)
        | inr named ↦
            let again = canonical_again kind k native refl (ground (arith, filled)) named (
              native-IsEnded (trim id) (strip_prefix_ignore_case (k <> ":") (trim id)) (k <> ":")
                refl (trim-IsEnded id)) in
            ground (arith, again)
      ]
    ]
