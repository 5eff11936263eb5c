-- ===== src/Examples/Printing.antt =====
-- A way to print scalars, for src/request_hash.rs: each text begins with the kind of its scalar, and
-- tells by itself where it ends.
use Prim.Native.Char.{Char, code}
use Prim.Native.String.{[], ◌∷◌}
use text.Mathlib.TextLemmas.{cons-append, nil-append}
use animus_queue_default.Common.{
  ◌≡◌, refl, sym, ap, ◌∙◌, ℕ, suc, zero, String, true, false, arith, eqb, eq_iff, ◌<>◌,
  if◌then◌else◌,
}
use animus_queue_default.Json.{
  Value, null, boolean, number, string, array, object, nil, cons, end, field, unsigned, negative,
  float,
}
use animus_queue_default.External.{External}
use animus_queue_default.RequestHash.Canonical.{
  arrays, objects, no_items, item, swap, canonical_json-SameValue,
}
use animus_queue_default.RequestHash.Canonical.Printed.{normal}
use animus_queue_default.RequestHash.Canonical.Decoded.{PrintsScalars, is_scalar, is_structural}
use animus_queue_default.RequestHash.Canonical.Injective.{canonical_json-normal}
use animus_queue_default.Examples.{x0}

abbrev unary : ℕ → String → String
unary zero r = "." ∷ r
unary (suc n) r = "1" ∷ unary n r

abbrev quoted : String → String → String
quoted [] r = "\"" ∷ r
quoted (c ∷ s) r = "," ∷ (c ∷ quoted s r)

abbrev coded : Value → String → String
coded null r = "n" ∷ r
coded (boolean true) r = "t" ∷ r
coded (boolean false) r = "f" ∷ r
coded (number (unsigned n)) r = "u" ∷ unary n r
coded (number (negative n)) r = "m" ∷ unary n r
coded (number (float n)) r = "x" ∷ unary n r
coded (string s) r = "q" ∷ quoted s r
coded (array xs) r = r
coded (object fs) r = r

unfoldable read_unary : String → ℕ × String
read_unary [] = (0, [])
read_unary (c ∷ s) = let (n, r) = read_unary s in if eqb (code c) b'1' then (suc n, r) else (0, s)

unfoldable read_quoted : String → String × String
read_quoted [] = ([], [])
read_quoted (c ∷ []) = ([], [])
read_quoted (c ∷ d ∷ s) =
    let (w, r) = read_quoted s in if eqb (code c) b',' then (d ∷ w, r) else ([], d ∷ s)

read_unary-unary : (n : ℕ) (r : String) → read_unary (unary n r) ≡ (n, r)
unfolding read_unary
read_unary-unary zero r = refl
read_unary-unary (suc n) r = ap (λ p. (suc p.0, p.1)) (read_unary-unary n r)

unary-append : (n : ℕ) (r t : String) → unary n r <> t ≡ unary n (r <> t)
unary-append zero r t = cons-append _ _ _
unary-append (suc n) r t = cons-append _ _ _ ∙ ap (λ s. "1" ∷ s) (unary-append n r t)

quoted-append : (s r t : String) → quoted s r <> t ≡ quoted s (r <> t)
quoted-append [] r t = cons-append _ _ _
quoted-append (c ∷ s) r t =
    cons-append _ _ _
    ∙ ap (λ s. "," ∷ s) (cons-append _ _ _ ∙ ap (λ s. c ∷ s) (quoted-append s r t))

read_quoted-quoted : (s r : String) → read_quoted (quoted s r) ≡ (s, r)
unfolding read_quoted
read_quoted-quoted [] [] = refl
read_quoted-quoted [] (d ∷ s) = refl
read_quoted-quoted (c ∷ s) r = ap (λ p. (c ∷ p.0, p.1)) (read_quoted-quoted s r)

read : String → Value × String
read [] = (null, [])
read (c ∷ s) =
    let n = code c in
    let (k, r) = read_unary s in
    let (w, t) = read_quoted s in
    if eqb n b'n'
    then (null, s)
    else if eqb n b't'
    then (boolean true, s)
    else if eqb n b'f'
    then (boolean false, s)
    else if eqb n b'u'
    then (number (unsigned k), r)
    else if eqb n b'm'
    then (number (negative k), r)
    else if eqb n b'x'
    then (number (float k), r)
    else (string w, t)

read-coded : (v : Value) (r : String) → is_scalar v ≡ true → read (coded v r) ≡ (v, r)
unfolding read
read-coded null r e = refl
read-coded (boolean true) r e = refl
read-coded (boolean false) r e = refl
read-coded (number (unsigned n)) r e = ap (λ p. (number (unsigned p.0), p.1)) (read_unary-unary n r)
read-coded (number (negative n)) r e = ap (λ p. (number (negative p.0), p.1)) (read_unary-unary n r)
read-coded (number (float n)) r e = ap (λ p. (number (float p.0), p.1)) (read_unary-unary n r)
read-coded (string s) r e = ap (λ p. (string p.0, p.1)) (read_quoted-quoted s r)
read-coded (array xs) r e = absurd (ground arith)
read-coded (object fs) r e = absurd (ground arith)

coded-append : (v : Value) (r : String) → is_scalar v ≡ true → coded v "" <> r ≡ coded v r
coded-append null r e = cons-append "n" "" r ∙ ap (λ t. "n" ∷ t) (nil-append r)
coded-append (boolean true) r e = cons-append "t" "" r ∙ ap (λ t. "t" ∷ t) (nil-append r)
coded-append (boolean false) r e = cons-append "f" "" r ∙ ap (λ t. "f" ∷ t) (nil-append r)
coded-append (number (unsigned n)) r e =
    cons-append "u" _ r ∙ ap (λ t. "u" ∷ t) (unary-append n "" r ∙ ap (unary n) (nil-append r))
coded-append (number (negative n)) r e =
    cons-append "m" _ r ∙ ap (λ t. "m" ∷ t) (unary-append n "" r ∙ ap (unary n) (nil-append r))
coded-append (number (float n)) r e =
    cons-append "x" _ r ∙ ap (λ t. "x" ∷ t) (unary-append n "" r ∙ ap (unary n) (nil-append r))
coded-append (string s) r e =
    cons-append "q" _ r ∙ ap (λ t. "q" ∷ t) (quoted-append s "" r ∙ ap (quoted s) (nil-append r))
coded-append (array xs) r e = absurd (ground arith)
coded-append (object fs) r e = absurd (ground arith)

coded-cut :
    (u v : Value) (r t : String)
    → is_scalar u ≡ true
    → is_scalar v ≡ true
    → coded u "" <> r ≡ coded v "" <> t
    → (u ≡ v) × (r ≡ t)
coded-cut u v r t a b e =
    let same =
      sym (read-coded u r a)
      ∙ ap read (sym (coded-append u r a) ∙ e ∙ coded-append v t b)
      ∙ read-coded v t b in
    (ap (λ p. p.0) same, ap (λ p. p.1) same)

coded_head :
    (u : Value)
    → is_scalar u ≡ true
    → (c : Char) × (s : String) × (coded u "" ≡ c ∷ s) × (is_structural c ≡ false)
coded_head null e = ("n", _, refl, refl)
coded_head (boolean true) e = ("t", _, refl, refl)
coded_head (boolean false) e = ("f", _, refl, refl)
coded_head (number (unsigned n)) e = ("u", _, refl, refl)
coded_head (number (negative n)) e = ("m", _, refl, refl)
coded_head (number (float n)) e = ("x", _, refl, refl)
coded_head (string s) e = ("q", _, refl, refl)
coded_head (array xs) e = absurd (ground arith)
coded_head (object fs) e = absurd (ground arith)

abbrev pub printing : External
printing = record x0 { json_text = λ v. coded v "" }

pub printing-PrintsScalars : PrintsScalars printing
printing-PrintsScalars = record {
  cut = λ u v r t a b i j e. coded-cut u v r t a b e;
  head = coded_head;
}

abbrev with_float : Value
with_float = array (
    cons (object (field "b" (number (float 5)) (field "a" (object (field "key" null end)) end)))
      nil)

abbrev sorted_float : Value
sorted_float = array (
    cons (object (field "a" (object (field "key" null end)) (field "b" (number (float 5)) end)))
      nil)

canonical_json-normal_example : normal with_float ≡ normal sorted_float
canonical_json-normal_example =
    canonical_json-normal printing printing-PrintsScalars with_float sorted_float (
      canonical_json-SameValue printing with_float sorted_float
        (arrays (item (objects (swap (λ e. ground (arith, (eq_iff "b" "a").1 e)))) no_items)))
