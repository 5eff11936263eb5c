-- ===== src/Plugin/Frames/Framed.antt =====
-- Requests on the wire, and how lists of bytes are cut.
use animus_queue_default.Common.{
  ◌≡◌, ◌≢◌, ◌⊎◌, inl, inr, refl, sym, ℕ, true, false, List, [], ◌∷◌, ◌++◌, drop, length, map, arith,
  All,
}
use animus_queue_default.Rpc.{RpcRequest}
use animus_queue_default.History.{is_ascii_whitespace}
use animus_queue_default.Plugin.Frames.{Frame, reads, incomplete, skip_whitespace}

-- One request on the wire: blanks, and then its text.
pub record Framed : Type 0 where
  pub gap : List ℕ
  pub bytes : List ℕ
  pub request : RpcRequest

-- Bytes of which no text begins elsewhere.
abbrev pub IsBlank : List ℕ → Type 0
IsBlank gap = All (λ b. is_ascii_whitespace b ≡ true) gap

-- The bytes of requests, with blanks at the end.
abbrev pub wire_text : List Framed → List ℕ → List ℕ
wire_text [] trailing = trailing
wire_text (f ∷ fs) trailing = f.gap ++ (f.bytes ++ wire_text fs trailing)

abbrev pub requests_of : List Framed → List RpcRequest
requests_of = map (λ (f : Framed). f.request)

module _ (parse : List ℕ → Frame) where
  -- The text of a request is an object: it begins with a byte that is no blank, the parser finds its
  -- end by itself, and asks for more bytes where some are missing.
  pub record IsFramed (f : Framed) : Type 0 where
    pub blank : IsBlank f.gap
    pub begins :
        (first : ℕ) × (others : List ℕ) × (f.bytes ≡ first ∷ others)
        × (is_ascii_whitespace first ≡ false)
    pub whole : (more : List ℕ) → parse (f.bytes ++ more) ≡ reads f.request (length f.bytes)
    pub cut :
        (front back : List ℕ)
        → front ++ back ≡ f.bytes
        → front ≢ []
        → back ≢ []
        → parse front ≡ incomplete

-- Two ways to cut one list: one of the cuts comes first.
pub append-cases :
    (xs ys zs ws : List ℕ)
    → xs ++ ys ≡ zs ++ ws
    → ((m : List ℕ) × (xs ≡ zs ++ m) × (ws ≡ m ++ ys))
      ⊎ ((m : List ℕ) × (m ≢ []) × (zs ≡ xs ++ m) × (ys ≡ m ++ ws))
append-cases xs ys [] ws e = inl (xs, refl, sym e)
append-cases [] ys (z ∷ zs) ws e = inr (z ∷ zs, (λ n. cc), refl, e)
append-cases (x ∷ xs) ys (z ∷ zs) ws e = elim (append-cases xs ys zs ws cc) [
  | inl (m, a, b) ↦ inl (m, cc, b)
  | inr (m, n, a, b) ↦ inr (m, n, cc, b)
]

pub append-ne-nil : (m xs : List ℕ) → m ≢ [] → m ++ xs ≢ []
append-ne-nil [] xs n e = n refl
append-ne-nil (b ∷ m) xs n e = cc

pub IsBlank-front : (front back : List ℕ) → IsBlank (front ++ back) → IsBlank front
IsBlank-front [] back h = tt
IsBlank-front (b ∷ front) back h = (h.0, IsBlank-front front back h.1)

pub IsBlank-back : (front back : List ℕ) → IsBlank (front ++ back) → IsBlank back
IsBlank-back [] back h = h
IsBlank-back (b ∷ front) back h = IsBlank-back front back h.1

pub skip-blank :
    (gap rest : List ℕ) → IsBlank gap → skip_whitespace (gap ++ rest) ≡ skip_whitespace rest
unfolding skip_whitespace
skip-blank [] rest h = refl
skip-blank (b ∷ gap) rest h = ground (arith, h.0, skip-blank gap rest h.1)

pub drop-append : (xs ys : List ℕ) → drop (length xs) (xs ++ ys) ≡ ys
drop-append [] ys = refl
drop-append (x ∷ xs) ys = drop-append xs ys

pub head_eq : {a b : ℕ} {xs ys : List ℕ} → a ∷ xs ≡ b ∷ ys → a ≡ b
head_eq e = cc

pub skip-all : (gap : List ℕ) → IsBlank gap → skip_whitespace gap ≡ []
unfolding skip_whitespace
skip-all [] h = refl
skip-all (b ∷ gap) h = ground (arith, h.0, skip-all gap h.1)

pub skip-text :
    (first : ℕ) (bytes : List ℕ)
    → is_ascii_whitespace first ≡ false
    → skip_whitespace (first ∷ bytes) ≡ first ∷ bytes
unfolding skip_whitespace
skip-text first bytes h = ground (arith, h)
