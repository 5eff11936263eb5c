-- ===== src/Plugin/Frames/Progress.antt =====
-- What one run of the loop makes of the bytes that are there.
use mathlib.Core.List.{append_assoc}
use animus_queue_default.Common.{
  ◌≡◌, ◌≢◌, inl, inr, refl, sym, subst, ap, ◌∙◌, ℕ, zero, suc, ◌<◌, false, List, [], ◌∷◌, ◌++◌,
  length, arith, All, length-append,
}
use animus_queue_default.History.{is_ascii_whitespace}
use animus_queue_default.Plugin.Frames.{
  Frame, Drained, started, skip_whitespace, drain_trimmed, drain,
}
use animus_queue_default.Plugin.Frames.Framed.{
  Framed, IsBlank, wire_text, requests_of, IsFramed, append-cases, skip-blank, drop-append,
  append-ne-nil, IsBlank-front, IsBlank-back, head_eq, skip-all, skip-text,
}

module _ (parse : List ℕ → Frame) where
  -- What the loop has done of some requests, when so many bytes are still to come.
  pub record Progress (fs : List Framed) (rest : List ℕ) (d : Drained) : Type 0 where
    pub remaining : List Framed
    pub trailing : List ℕ
    pub framed : All (IsFramed parse) remaining
    pub blank : IsBlank trailing
    pub split : requests_of fs ≡ d.0 ++ requests_of remaining
    pub buffered : d.1 ++ rest ≡ wire_text remaining trailing
    pub done : rest ≡ [] → remaining ≡ []

  -- A whole text at the start of the buffer becomes a request.
  drain-whole :
      (f : Framed) (more : List ℕ) (next : List ℕ → Drained)
      → IsFramed parse f
      → drain_trimmed parse (skip_whitespace (f.bytes ++ more)) next ≡ started f.request (next more)
  drain-whole f more next h =
      let (first, others, e, text) = h.begins in
      ground
        (arith, e, skip-text first (others ++ more) text, h.whole more, drop-append f.bytes more)

  -- A text that is cut, or has not begun, stays in the buffer.
  drain-cut :
      (f : Framed) (front back : List ℕ) (next : List ℕ → Drained)
      → IsFramed parse f
      → front ++ back ≡ f.bytes
      → back ≢ []
      → drain_trimmed parse (skip_whitespace front) next ≡ ([], front)
  unfolding skip_whitespace
  drain-cut f [] back next h e n = refl
  drain-cut f (b ∷ front) back next h e n =
      let (first, others, d, text) = h.begins in
      ground (
        arith,
        skip-text b front
            (subst (λ c. is_ascii_whitespace c ≡ false) (head_eq (sym d ∙ sym e)) text),
        h.cut (b ∷ front) back e (λ n. cc) n,
      )

  ungapped :
      (f : Framed) (gap : List ℕ)
      → IsBlank gap
      → IsFramed parse f
      → IsFramed parse (record f { gap = gap })
  ungapped f gap blank h = record { blank = blank; begins = h.begins; whole = h.whole; cut = h.cut }

  -- Where the buffer ends within the text of a request.
  Progress-cut :
      (f : Framed) (fs : List Framed) (trailing front back : List ℕ) (next : List ℕ → Drained)
      → IsFramed parse f
      → All (IsFramed parse) fs
      → IsBlank trailing
      → front ++ back ≡ f.bytes
      → back ≢ []
      → Progress
          (f ∷ fs)
          (back ++ wire_text fs trailing)
          (drain_trimmed parse (skip_whitespace front) next)
  Progress-cut f fs trailing front back next h hs blank e n =
      rw (drain-cut f front back next h e n) (record {
        remaining = record f { gap = [] } ∷ fs;
        trailing = trailing;
        framed = (ungapped f [] tt h, hs);
        blank = blank;
        split = refl;
        buffered =
            sym (append_assoc front back (wire_text fs trailing))
            ∙ ap (λ t. t ++ wire_text fs trailing) e;
        done = λ z. absurd (append-ne-nil back (wire_text fs trailing) n z);
      })

  -- Where the buffer ends before the text of a request.
  Progress-gap :
      (f : Framed) (fs : List Framed) (trailing buffer gap : List ℕ) (next : List ℕ → Drained)
      → IsFramed parse f
      → All (IsFramed parse) fs
      → IsBlank trailing
      → f.gap ≡ buffer ++ gap
      → gap ≢ []
      → Progress
          (f ∷ fs)
          (gap ++ (f.bytes ++ wire_text fs trailing))
          (drain_trimmed parse (skip_whitespace buffer) next)
  Progress-gap f fs trailing buffer gap next h hs blank e n =
      let parts = subst IsBlank e h.blank in
      rw (skip-all buffer (IsBlank-front buffer gap parts)) (record {
        remaining = record f { gap = gap } ∷ fs;
        trailing = trailing;
        framed = (ungapped f gap (IsBlank-back buffer gap parts) h, hs);
        blank = blank;
        split = refl;
        buffered = refl;
        done = λ z. absurd (append-ne-nil gap (f.bytes ++ wire_text fs trailing) n z);
      })

  -- Where a request is read, and the rest of the buffer makes progress.
  Progress-started :
      (f : Framed) (fs : List Framed) (rest : List ℕ) (d : Drained)
      → Progress fs rest d
      → Progress (f ∷ fs) rest (started f.request d)
  Progress-started f fs rest d h = record {
    remaining = h.remaining;
    trailing = h.trailing;
    framed = h.framed;
    blank = h.blank;
    split = ap (λ rs. f.request ∷ rs) h.split;
    buffered = h.buffered;
    done = h.done;
  }

  Progress-end :
      (buffer rest trailing : List ℕ) (next : List ℕ → Drained)
      → IsBlank trailing
      → buffer ++ rest ≡ trailing
      → Progress [] rest (drain_trimmed parse (skip_whitespace buffer) next)
  Progress-end buffer rest trailing next blank e =
      let parts = subst IsBlank (sym e) blank in
      rw (skip-all buffer (IsBlank-front buffer rest parts)) (record {
        remaining = [];
        trailing = rest;
        framed = tt;
        blank = IsBlank-back buffer rest parts;
        split = refl;
        buffered = refl;
        done = λ z. refl;
      })

  -- A request that is read makes the buffer shorter.
  shorter :
      (f : Framed) (m buffer more : List ℕ) (fuel : ℕ)
      → IsFramed parse f
      → buffer ≡ f.gap ++ m
      → m ≡ f.bytes ++ more
      → length buffer < suc fuel
      → length more < fuel
  shorter f m buffer more fuel h a c l =
      let (first, others, d, text) = h.begins in
      omega (
        arith,
        l,
        ap length a,
        ap length c,
        ap length d,
        length-append f.gap m,
        length-append f.bytes more,
      )

  -- The loop, with enough turns.
  pub drain-Progress :
      (fuel : ℕ) (buffer rest : List ℕ) (fs : List Framed) (trailing : List ℕ)
      → length buffer < fuel
      → All (IsFramed parse) fs
      → IsBlank trailing
      → buffer ++ rest ≡ wire_text fs trailing
      → Progress fs rest (drain parse fuel buffer)
  unfolding drain
  drain-Progress zero buffer rest fs trailing l h blank e = absurd (omega (arith, l))
  drain-Progress (suc fuel) buffer rest [] trailing l h blank e =
      Progress-end buffer rest trailing (drain parse fuel) blank e
  drain-Progress (suc fuel) buffer rest (f ∷ fs) trailing l h blank e =
      elim (append-cases buffer rest f.gap (f.bytes ++ wire_text fs trailing) e) [
        | inr (gap, n, a, b) ↦
            rw b (Progress-gap f fs trailing buffer gap (drain parse fuel) h.0 h.1 blank a n)
        | inl (m, a, b) ↦ elim (append-cases m rest f.bytes (wire_text fs trailing) (sym b)) [
          | inr (back, n, c, d) ↦
              rw (a, d, skip-blank f.gap m h.0.blank)
                (Progress-cut f fs trailing m back (drain parse fuel) h.0 h.1 blank (sym c) n)
          | inl (more, c, d) ↦
              rw
                (
                  a,
                  c,
                  skip-blank f.gap (f.bytes ++ more) h.0.blank,
                  drain-whole f more (drain parse fuel) h.0,
                )
                (Progress-started f fs rest (drain parse fuel more) (
                  drain-Progress fuel more rest fs trailing (shorter f m buffer more fuel h.0 a c l)
                    h.1 blank (sym d)))
        ]
      ]
