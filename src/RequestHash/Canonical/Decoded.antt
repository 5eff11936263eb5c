-- ===== src/RequestHash/Canonical/Decoded.antt =====
-- A plain text gives back the value: two values with one text are one value.
use Prim.Native.Char.{Char, code}
use Prim.Native.String.{[], ◌∷◌}
use text.Mathlib.TextLemmas.{append_assoc, append-nil, cons-append, nil-append}
use animus_queue_default.Common.{
  ◌≡◌, ◌≢◌, refl, sym, ap, ◌∙◌, subst, String, Bool, true, false, ◌||◌, List, map, ◌<>◌, arith, eqb,
}
use animus_queue_default.Json.{Value, null, boolean, number, string, array, object}
use animus_queue_default.External.{External}
use animus_queue_default.RequestHash.{join, write_field}
use animus_queue_default.RequestHash.Canonical.Printed.{printed, printed_items, printed_fields}

-- The characters that stand between the parts of a text.
abbrev pub is_closing : Char → Bool
is_closing c = let n = code c in eqb n b',' || eqb n b':' || eqb n b']' || eqb n b'}'

-- Nothing more, or a character that ends a part.
abbrev pub IsEnd : String → Type 0
IsEnd [] = Unit {0}
IsEnd (c ∷ s) = is_closing c ≡ true

-- The characters that an array, an object or an end begin with.
abbrev pub is_structural : Char → Bool
is_structural c = let n = code c in eqb n b'[' || eqb n b'{' || is_closing c

abbrev pub is_scalar : Value → Bool
is_scalar (array xs) = false
is_scalar (object fs) = false
is_scalar null = true
is_scalar (boolean b) = true
is_scalar (number n) = true
is_scalar (string s) = true

-- What serde_json prints for scalars: what ends a text is no part of it, one text is printed for one
-- scalar only, and no text begins as an array or an object does.
pub record PrintsScalars (x : External) : Type 0 where
  pub cut :
      (u v : Value) (r t : String)
      → is_scalar u ≡ true
      → is_scalar v ≡ true
      → IsEnd r
      → IsEnd t
      → x.json_text u <> r ≡ x.json_text v <> t
      → (u ≡ v) × (r ≡ t)
  pub head :
      (u : Value)
      → is_scalar u ≡ true
      → (c : Char) × (s : String) × (x.json_text u ≡ c ∷ s) × (is_structural c ≡ false)

pub head_eq : {c d : Char} {s t : String} → c ∷ s ≡ d ∷ t → c ≡ d
head_eq e = cc

pub tail_eq : {c d : Char} {s t : String} → c ∷ s ≡ d ∷ t → s ≡ t
tail_eq e = cc

-- What stands behind the first part of a list of parts.
abbrev pub more : List String → String
more List.[] = ""
more (List.◌∷◌ s rest) = "," <> join (List.◌∷◌ s rest)

pub join-more : (s : String) (rest : List String) → join (List.◌∷◌ s rest) ≡ s <> more rest
unfolding join
join-more s List.[] = sym (append-nil s)
join-more s (List.◌∷◌ t rest) = append_assoc s "," (join (List.◌∷◌ t rest))

-- A list of parts in front of what follows it.
pub join-append :
    (s : String) (rest : List String) (r : String)
    → join (List.◌∷◌ s rest) <> r ≡ s <> (more rest <> r)
join-append s rest r = ap (λ text. text <> r) (join-more s rest) ∙ append_assoc s (more rest) r

-- A text between brackets, in front of what follows it.
pub wrapped : (c d : Char) (text r : String) → (c ∷ [] <> text <> d ∷ []) <> r ≡ c ∷ (text <> d ∷ r)
wrapped c d text r = simp (append_assoc, cons-append, nil-append)

pub more-cons :
    (s : String) (rest : List String) (r : String)
    → more (List.◌∷◌ s rest) <> r ≡ "," ∷ (s <> (more rest <> r))
more-cons s rest r =
    append_assoc "," (join (List.◌∷◌ s rest)) r
    ∙ cons-append "," "" (join (List.◌∷◌ s rest) <> r)
    ∙ ap (λ text. "," ∷ text) (nil-append (join (List.◌∷◌ s rest) <> r) ∙ join-append s rest r)

pub more-IsEnd : (rest : List String) (r : String) → IsEnd r → IsEnd (more rest <> r)
more-IsEnd List.[] r h = subst IsEnd (sym (nil-append r)) h
more-IsEnd (List.◌∷◌ s rest) r h = subst IsEnd (sym (more-cons s rest r)) refl

module _ (x : External) (h : PrintsScalars x) where
  -- No scalar's text begins with a structural character.
  pub scalar-ne :
      (u : Value) (r s : String) (c : Char)
      → is_scalar u ≡ true
      → is_structural c ≡ true
      → x.json_text u <> r ≢ c ∷ s
  scalar-ne u r s c i k e =
      let (d, rest, t, n) = h.head u i in
      let same = head_eq (sym (cons-append d rest r) ∙ sym (ap (λ text. text <> r) t) ∙ e) in
      ground (arith, n, subst (λ b. is_structural b ≡ true) (sym same) k)

  wrapped-ne :
      (b d c : Char) (text r s : String)
      → is_closing b ≡ false
      → is_closing c ≡ true
      → (b ∷ [] <> text <> d ∷ []) <> r ≢ c ∷ s
  wrapped-ne b d c text r s n k e =
      let same = head_eq (sym (wrapped b d text r) ∙ e) in
      ground (arith, n, subst (λ a. is_closing a ≡ true) (sym same) k)

  -- No value's text begins as an end does.
  pub printed-ne :
      (v : Value) (r s : String) (c : Char) → is_closing c ≡ true → printed x v <> r ≢ c ∷ s
  unfolding printed
  printed-ne null r s c k = scalar-ne null r s c refl (ground (arith, k))
  printed-ne (boolean b) r s c k = scalar-ne (boolean b) r s c refl (ground (arith, k))
  printed-ne (number n) r s c k = scalar-ne (number n) r s c refl (ground (arith, k))
  printed-ne (string t) r s c k = scalar-ne (string t) r s c refl (ground (arith, k))
  printed-ne (array xs) r s c k = wrapped-ne "[" "]" c _ r s refl k
  printed-ne (object fs) r s c k = wrapped-ne "{" "}" c _ r s refl k

  -- Two values whose texts begin alike, up to ends, are one value.
  abbrev pub Cuts : Value → Type 0
  Cuts v =
      (w : Value) (r t : String)
      → IsEnd r
      → IsEnd t
      → printed x v <> r ≡ printed x w <> t
      → (v ≡ w) × (r ≡ t)

  pub scalar-Cuts : (v : Value) → is_scalar v ≡ true → printed x v ≡ x.json_text v → Cuts v
  unfolding printed
  scalar-Cuts v i e null r t a b f = h.cut v null r t i refl a b (ap (λ s. s <> r) (sym e) ∙ f)
  scalar-Cuts v i e (boolean c) r t a b f =
      h.cut v (boolean c) r t i refl a b (ap (λ s. s <> r) (sym e) ∙ f)
  scalar-Cuts v i e (number n) r t a b f =
      h.cut v (number n) r t i refl a b (ap (λ s. s <> r) (sym e) ∙ f)
  scalar-Cuts v i e (string u) r t a b f =
      h.cut v (string u) r t i refl a b (ap (λ s. s <> r) (sym e) ∙ f)
  scalar-Cuts v i e (array xs) r t a b f = absurd (
      scalar-ne v r _ "[" i refl
        (ap (λ s. s <> r) (sym e) ∙ f ∙ wrapped "[" "]" (join (printed_items x xs)) t))
  scalar-Cuts v i e (object fs) r t a b f = absurd (
      scalar-ne v r _ "{" i refl (
        ap (λ s. s <> r) (sym e)
        ∙ f
        ∙ wrapped "{" "}" (join (map (write_field x) (printed_fields x fs))) t))
