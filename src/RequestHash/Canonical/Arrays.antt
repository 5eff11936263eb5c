-- ===== src/RequestHash/Canonical/Arrays.antt =====
-- Arrays are given back by their plain texts.
use Prim.Native.Char.{code}
use Prim.Native.String.{◌∷◌}
use text.Mathlib.TextLemmas.{nil-append}
use animus_queue_default.Common.{◌≡◌, refl, sym, ap, ◌∙◌, String, ◌<>◌, arith}
use animus_queue_default.Json.{Value, Items, nil, cons}
use animus_queue_default.External.{External}
use animus_queue_default.RequestHash.{join}
use animus_queue_default.RequestHash.Canonical.Printed.{printed, printed_items}
use animus_queue_default.RequestHash.Canonical.Decoded.{
  head_eq, tail_eq, more, join-append, more-cons, more-IsEnd, PrintsScalars, printed-ne, Cuts,
}

module _ (x : External) (h : PrintsScalars x) where
  -- The items behind the first one.
  abbrev pub ItemsCut : Items → Type 0
  ItemsCut xs =
      (ys : Items) (r t : String)
      → more (printed_items x xs) <> "]" ∷ r ≡ more (printed_items x ys) <> "]" ∷ t
      → (xs ≡ ys) × (r ≡ t)

  -- A value and the items behind it, in front of the end of an array.
  cons-cut :
      (v w : Value) (xs ys : Items) (r t : String)
      → Cuts x h v
      → ItemsCut xs
      → printed x v <> (more (printed_items x xs) <> "]" ∷ r)
        ≡ printed x w <> (more (printed_items x ys) <> "]" ∷ t)
      → (cons v xs ≡ cons w ys) × (r ≡ t)
  cons-cut v w xs ys r t c d e =
      let (first, others) =
        c w (more (printed_items x xs) <> "]" ∷ r) (more (printed_items x ys) <> "]" ∷ t)
          (more-IsEnd (printed_items x xs) ("]" ∷ r) refl)
          (more-IsEnd (printed_items x ys) ("]" ∷ t) refl) e in
      let (rest, last) = d ys r t others in (cc (first, rest), last)

  -- The parts of a list of items are given back.
  abbrev pub ItemsReady : Items → Type 0
  ItemsReady nil = Unit {0}
  ItemsReady (cons v xs) = Cuts x h v × ItemsCut xs

  -- The items of two arrays, in front of their ends.
  pub array-cut :
      (xs ys : Items) (r t : String)
      → ItemsReady xs
      → join (printed_items x xs) <> "]" ∷ r ≡ join (printed_items x ys) <> "]" ∷ t
      → (xs ≡ ys) × (r ≡ t)
  unfolding join printed_items
  array-cut nil nil r t c e =
      (refl, tail_eq (sym (nil-append ("]" ∷ r)) ∙ e ∙ nil-append ("]" ∷ t)))
  array-cut nil (cons w ys) r t c e = absurd (
      printed-ne x h w _ r "]" refl (
        sym (join-append (printed x w) (printed_items x ys) ("]" ∷ t))
        ∙ sym e
        ∙ nil-append ("]" ∷ r)))
  array-cut (cons v xs) nil r t c e = absurd (
      printed-ne x h v _ t "]" refl
        (sym (join-append (printed x v) (printed_items x xs) ("]" ∷ r)) ∙ e ∙ nil-append ("]" ∷ t)))
  array-cut (cons v xs) (cons w ys) r t c e =
      let (first, rest) = c in
      cons-cut v w xs ys r t first rest (
        sym (join-append (printed x v) (printed_items x xs) ("]" ∷ r))
        ∙ e
        ∙ join-append (printed x w) (printed_items x ys) ("]" ∷ t))

  pub items-nil-cut : ItemsCut nil
  unfolding printed_items
  items-nil-cut nil r t e = (refl, tail_eq (sym (nil-append ("]" ∷ r)) ∙ e ∙ nil-append ("]" ∷ t)))
  items-nil-cut (cons w ys) r t e = absurd (
      omega (
        arith,
        ap code (
            head_eq (
              sym (nil-append ("]" ∷ r))
              ∙ e
              ∙ more-cons (printed x w) (printed_items x ys) ("]" ∷ t))),
      ))

  pub items-cons-cut : (v : Value) (xs : Items) → Cuts x h v → ItemsCut xs → ItemsCut (cons v xs)
  unfolding printed_items
  items-cons-cut v xs c d nil r t e = absurd (
      omega (
        arith,
        ap code (
            head_eq (
              sym (more-cons (printed x v) (printed_items x xs) ("]" ∷ r))
              ∙ e
              ∙ nil-append ("]" ∷ t))),
      ))
  items-cons-cut v xs c d (cons w ys) r t e = cons-cut v w xs ys r t c d (
      tail_eq (
        sym (more-cons (printed x v) (printed_items x xs) ("]" ∷ r))
        ∙ e
        ∙ more-cons (printed x w) (printed_items x ys) ("]" ∷ t)))
