-- ===== src/RequestHash/Canonical/Injective.antt =====
-- One canonical text is that of one value, up to the order of fields.
use Prim.Native.Char.{code}
use animus_queue_default.Common.{◌≡◌, refl, sym, ap, ◌∙◌, String, ◌<>◌, arith}
use animus_queue_default.Json.{
  Value, Items, Fields, null, boolean, number, string, array, object, nil, cons, end, field,
}
use animus_queue_default.External.{External}
use animus_queue_default.RequestHash.Canonical.Printed.{printed}
use animus_queue_default.RequestHash.Canonical.Decoded.{
  head_eq, tail_eq, wrapped, PrintsScalars, Cuts, scalar-Cuts,
}
use animus_queue_default.RequestHash.{canonical_json}
use animus_queue_default.RequestHash.Canonical.Printed.{normal, canonical_json-printed}
use animus_queue_default.RequestHash.Canonical.Arrays.{
  ItemsCut, ItemsReady, array-cut, items-nil-cut, items-cons-cut,
}
use animus_queue_default.RequestHash.Canonical.Objects.{
  FieldsCut, FieldsReady, object-cut, fields-end-cut, fields-field-cut,
}

module _ (x : External) (h : PrintsScalars x) where
  flipped : {v w : Value} {r t : String} → (v ≡ w) × (r ≡ t) → (w ≡ v) × (t ≡ r)
  flipped (e, f) = (sym e, sym f)

  array-Cuts : (xs : Items) → ItemsReady x h xs → Cuts x h (array xs)
  unfolding printed
  array-Cuts xs c null r t a b e =
      flipped (scalar-Cuts x h null refl refl (array xs) t r b a (sym e))
  array-Cuts xs c (boolean d) r t a b e =
      flipped (scalar-Cuts x h (boolean d) refl refl (array xs) t r b a (sym e))
  array-Cuts xs c (number n) r t a b e =
      flipped (scalar-Cuts x h (number n) refl refl (array xs) t r b a (sym e))
  array-Cuts xs c (string s) r t a b e =
      flipped (scalar-Cuts x h (string s) refl refl (array xs) t r b a (sym e))
  array-Cuts xs c (array ys) r t a b e =
      let (same, rest) =
        array-cut x h xs ys r t c (tail_eq (sym (wrapped "[" "]" _ r) ∙ e ∙ wrapped "[" "]" _ t)) in
      (ap array same, rest)
  array-Cuts xs c (object gs) r t a b e =
      absurd
        (omega (arith, ap code (head_eq (sym (wrapped "[" "]" _ r) ∙ e ∙ wrapped "{" "}" _ t))))

  object-Cuts : (fs : Fields) → FieldsReady x h fs → Cuts x h (object fs)
  unfolding printed
  object-Cuts fs c null r t a b e =
      flipped (scalar-Cuts x h null refl refl (object fs) t r b a (sym e))
  object-Cuts fs c (boolean d) r t a b e =
      flipped (scalar-Cuts x h (boolean d) refl refl (object fs) t r b a (sym e))
  object-Cuts fs c (number n) r t a b e =
      flipped (scalar-Cuts x h (number n) refl refl (object fs) t r b a (sym e))
  object-Cuts fs c (string s) r t a b e =
      flipped (scalar-Cuts x h (string s) refl refl (object fs) t r b a (sym e))
  object-Cuts fs c (array ys) r t a b e =
      absurd
        (omega (arith, ap code (head_eq (sym (wrapped "{" "}" _ r) ∙ e ∙ wrapped "[" "]" _ t))))
  object-Cuts fs c (object gs) r t a b e =
      let (same, rest) =
        object-cut x h fs gs r t c
          (tail_eq (sym (wrapped "{" "}" _ r) ∙ e ∙ wrapped "{" "}" _ t)) in
      (ap object same, rest)

  mutual
    unfolding printed

    value-Cuts : (v : Value) → Cuts x h v
    value-Cuts null = scalar-Cuts x h null refl refl
    value-Cuts (boolean b) = scalar-Cuts x h (boolean b) refl refl
    value-Cuts (number n) = scalar-Cuts x h (number n) refl refl
    value-Cuts (string s) = scalar-Cuts x h (string s) refl refl
    value-Cuts (array nil) = array-Cuts nil tt
    value-Cuts (array (cons v xs)) = array-Cuts (cons v xs) (value-Cuts v, items-cut xs)
    value-Cuts (object end) = object-Cuts end tt
    value-Cuts (object (field key v fs)) =
        object-Cuts (field key v fs) (value-Cuts v, fields-cut fs)

    items-cut : (xs : Items) → ItemsCut x h xs
    items-cut nil = items-nil-cut x h
    items-cut (cons v xs) = items-cons-cut x h v xs (value-Cuts v) (items-cut xs)

    fields-cut : (fs : Fields) → FieldsCut x h fs
    fields-cut end = fields-end-cut x h
    fields-cut (field key v fs) = fields-field-cut x h key v fs (value-Cuts v) (fields-cut fs)

  -- Where serde_json prints scalars so that each text is that of one scalar, is cut off by what ends
  -- it, and begins as no array, no object and no end of one does: two values with the same canonical
  -- text are the same once the fields of their objects are sorted by key, at every level.
  pub canonical_json-normal :
      (v w : Value) → canonical_json x v ≡ canonical_json x w → normal v ≡ normal w
  canonical_json-normal v w e =
      let same = sym (canonical_json-printed x v) ∙ e ∙ canonical_json-printed x w in
      (value-Cuts (normal v) (normal w) "" "" tt tt (ap (λ text. text <> "") same)).0
