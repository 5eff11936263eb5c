-- ===== src/RequestHash/Canonical/Objects.antt =====
-- Objects are given back by their plain texts.
use Prim.Native.Char.{code}
use Prim.Native.String.{◌∷◌}
use text.Mathlib.TextLemmas.{append_assoc, cons-append, nil-append}
use animus_queue_default.Common.{◌≡◌, ◌≢◌, refl, sym, ap, ◌∙◌, String, List, map, ◌<>◌, arith}
use animus_queue_default.Json.{Value, Fields, string, end, field}
use animus_queue_default.External.{External}
use animus_queue_default.RequestHash.{join, write_field}
use animus_queue_default.RequestHash.Canonical.Printed.{printed, printed_fields}
use animus_queue_default.RequestHash.Canonical.Decoded.{
  head_eq, tail_eq, more, join-append, more-cons, more-IsEnd, PrintsScalars, scalar-ne, Cuts,
}

module _ (x : External) (h : PrintsScalars x) where
  -- A field in front of what follows it.
  field-append :
      (key text r : String)
      → write_field x (key, text) <> r ≡ x.json_text (string key) <> ":" ∷ (text <> r)
  unfolding write_field
  field-append key text r =
      append_assoc (x.json_text (string key) <> ":") text r
      ∙ append_assoc (x.json_text (string key)) ":" (text <> r)
      ∙ ap (λ s. x.json_text (string key) <> s)
          (cons-append ":" "" (text <> r) ∙ ap (λ s. ":" ∷ s) (nil-append (text <> r)))

  -- No field's text begins as an end does.
  field-ne : (key text r s : String) → write_field x (key, text) <> r ≢ "}" ∷ s
  field-ne key text r s e =
      scalar-ne x h (string key) (":" ∷ (text <> r)) s "}" refl refl
        (sym (field-append key text r) ∙ e)

  -- The texts of fields.
  abbrev written : Fields → List String
  written fs = map (write_field x) (printed_fields x fs)

  -- The fields behind the first one.
  abbrev pub FieldsCut : Fields → Type 0
  FieldsCut fs =
      (gs : Fields) (r t : String)
      → more (written fs) <> "}" ∷ r ≡ more (written gs) <> "}" ∷ t
      → (fs ≡ gs) × (r ≡ t)

  same_field :
      {key other : String} {v w : Value} {fs gs : Fields}
      → string key ≡ string other
      → v ≡ w
      → fs ≡ gs
      → field key v fs ≡ field other w gs
  same_field k e f = cc

  -- A field and the fields behind it, in front of the end of an object.
  field-cut :
      (key other : String) (v w : Value) (fs gs : Fields) (r t : String)
      → Cuts x h v
      → FieldsCut fs
      → write_field x (key, printed x v) <> (more (written fs) <> "}" ∷ r)
        ≡ write_field x (other, printed x w) <> (more (written gs) <> "}" ∷ t)
      → (field key v fs ≡ field other w gs) × (r ≡ t)
  field-cut key other v w fs gs r t c d e =
      let after = more (written fs) <> "}" ∷ r in
      let after' = more (written gs) <> "}" ∷ t in
      let (keys, values) =
        h.cut (string key) (string other) (":" ∷ (printed x v <> after))
          (":" ∷ (printed x w <> after')) refl refl refl refl
          (sym (field-append key (printed x v) after)
            ∙ e
            ∙ field-append other (printed x w) after') in
      let (first, others) =
        c w after after' (more-IsEnd (written fs) ("}" ∷ r) refl)
          (more-IsEnd (written gs) ("}" ∷ t) refl) (tail_eq values) in
      let (rest, last) = d gs r t others in (same_field keys first rest, last)

  -- The parts of an object's fields are given back.
  abbrev pub FieldsReady : Fields → Type 0
  FieldsReady end = Unit {0}
  FieldsReady (field key v fs) = Cuts x h v × FieldsCut fs

  -- The fields of two objects, in front of their ends.
  pub object-cut :
      (fs gs : Fields) (r t : String)
      → FieldsReady fs
      → join (written fs) <> "}" ∷ r ≡ join (written gs) <> "}" ∷ t
      → (fs ≡ gs) × (r ≡ t)
  unfolding join printed_fields
  object-cut end end r t c e =
      (refl, tail_eq (sym (nil-append ("}" ∷ r)) ∙ e ∙ nil-append ("}" ∷ t)))
  object-cut end (field other w gs) r t c e = absurd (
      field-ne other (printed x w) _ r (
        sym (join-append (write_field x (other, printed x w)) (written gs) ("}" ∷ t))
        ∙ sym e
        ∙ nil-append ("}" ∷ r)))
  object-cut (field key v fs) end r t c e = absurd (
      field-ne key (printed x v) _ t (
        sym (join-append (write_field x (key, printed x v)) (written fs) ("}" ∷ r))
        ∙ e
        ∙ nil-append ("}" ∷ t)))
  object-cut (field key v fs) (field other w gs) r t c e =
      let (first, rest) = c in
      field-cut key other v w fs gs r t first rest (
        sym (join-append (write_field x (key, printed x v)) (written fs) ("}" ∷ r))
        ∙ e
        ∙ join-append (write_field x (other, printed x w)) (written gs) ("}" ∷ t))

  pub fields-end-cut : FieldsCut end
  unfolding printed_fields
  fields-end-cut end r t e = (refl, tail_eq (sym (nil-append ("}" ∷ r)) ∙ e ∙ nil-append ("}" ∷ t)))
  fields-end-cut (field other w gs) r t e = absurd (
      omega (
        arith,
        ap code (
            head_eq (
              sym (nil-append ("}" ∷ r))
              ∙ e
              ∙ more-cons (write_field x (other, printed x w)) (written gs) ("}" ∷ t))),
      ))

  pub fields-field-cut :
      (key : String) (v : Value) (fs : Fields)
      → Cuts x h v
      → FieldsCut fs
      → FieldsCut (field key v fs)
  unfolding printed_fields
  fields-field-cut key v fs c d end r t e = absurd (
      omega (
        arith,
        ap code (
            head_eq (
              sym (more-cons (write_field x (key, printed x v)) (written fs) ("}" ∷ r))
              ∙ e
              ∙ nil-append ("}" ∷ t))),
      ))
  fields-field-cut key v fs c d (field other w gs) r t e = field-cut key other v w fs gs r t c d (
      tail_eq (
        sym (more-cons (write_field x (key, printed x v)) (written fs) ("}" ∷ r))
        ∙ e
        ∙ more-cons (write_field x (other, printed x w)) (written gs) ("}" ∷ t)))
