-- ===== src/Plugin/Frames/Chunks.antt =====
-- Requests arrive whole, however the bytes are cut into chunks.
use mathlib.Core.List.{append_assoc}
use animus_queue_default.Common.{
  ◌≡◌, refl, sym, ap, ◌∙◌, ℕ, suc, List, [], ◌∷◌, ◌++◌, length, arith, All, length-append,
}
use animus_queue_default.Plugin.Frames.{Frame, drain, read_chunks}
use animus_queue_default.Plugin.Frames.Framed.{Framed, IsBlank, wire_text, requests_of, IsFramed}
use animus_queue_default.Plugin.Frames.Progress.{drain-Progress}

-- The chunks, one behind another.
abbrev pub flatten : List (List ℕ) → List ℕ
flatten [] = []
flatten (chunk ∷ chunks) = chunk ++ flatten chunks

module _ (parse : List ℕ → Frame) where
  chunks-requests :
      (chunks : List (List ℕ)) (buffer : List ℕ) (fs : List Framed) (trailing : List ℕ)
      → All (IsFramed parse) fs
      → IsBlank trailing
      → buffer ++ flatten chunks ≡ wire_text fs trailing
      → (flatten chunks ≡ [] → fs ≡ [])
      → (read_chunks parse buffer chunks).0 ≡ requests_of fs
  unfolding read_chunks
  chunks-requests [] buffer fs trailing h blank e none_left = rw (none_left refl) refl
  chunks-requests (chunk ∷ chunks) buffer fs trailing h blank e none_left =
      let filled = buffer ++ chunk in
      let turn =
        drain-Progress parse (suc (length filled)) filled (flatten chunks) fs trailing (omega arith)
          h blank (append_assoc buffer chunk (flatten chunks) ∙ e) in
      let left = (drain parse (suc (length filled)) filled).1 in
      let later =
        chunks-requests chunks left turn.remaining turn.trailing turn.framed turn.blank
          turn.buffered turn.done in
      cc (turn.split, later)

  wire_text-nil :
      (fs : List Framed) (trailing : List ℕ)
      → All (IsFramed parse) fs
      → wire_text fs trailing ≡ []
      → fs ≡ []
  wire_text-nil [] trailing h e = refl
  wire_text-nil (f ∷ fs) trailing h e =
      let (first, others, d, text) = h.0.begins in
      absurd (
        omega (
          arith,
          ap length e,
          ap length d,
          length-append f.gap (f.bytes ++ wire_text fs trailing),
          length-append f.bytes (wire_text fs trailing),
        ))

  -- If the input is requests, each the text of an object, with blanks between them: however it is
  -- cut into chunks, just these requests are started, all of them and in their order.
  pub read_chunks-requests :
      (chunks : List (List ℕ)) (fs : List Framed) (trailing : List ℕ)
      → All (IsFramed parse) fs
      → IsBlank trailing
      → flatten chunks ≡ wire_text fs trailing
      → (read_chunks parse [] chunks).0 ≡ requests_of fs
  read_chunks-requests chunks fs trailing h blank e =
      chunks-requests chunks [] fs trailing h blank e (λ z. wire_text-nil fs trailing h (sym e ∙ z))
