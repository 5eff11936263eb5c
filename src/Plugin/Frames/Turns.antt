-- ===== src/Plugin/Frames/Turns.antt =====
-- The inner loop of the reader ends: so many turns as there are bytes, and one more, are enough.
use animus_queue_default.Common.{
  ◌≡◌, refl, ap, ℕ, zero, suc, ◌≤◌, ◌<◌, some, List, [], ◌∷◌, drop, length, arith, Option-cases,
  inl, inr,
}
use animus_queue_default.Rpc.{RpcRequest}
use animus_queue_default.Plugin.Frames.{
  Frame, reads, incomplete, invalid, nothing, Drained, started, skip_whitespace, after_newline,
  drain_frame, drain_trimmed, drain,
}

length-skip-le : (bytes : List ℕ) → length (skip_whitespace bytes) ≤ length bytes
unfolding skip_whitespace
length-skip-le [] = omega arith
length-skip-le (b ∷ bytes) = ground (arith, length-skip-le bytes)

length-after_newline-lt :
    (bytes rest : List ℕ) → after_newline bytes ≡ some rest → length rest < length bytes
unfolding after_newline
length-after_newline-lt [] rest e = cc
length-after_newline-lt (b ∷ bytes) rest e = ground (arith, length-after_newline-lt bytes rest)

length-drop-le : (n : ℕ) (bytes : List ℕ) → length (drop n bytes) ≤ length bytes
length-drop-le zero bytes = omega arith
length-drop-le (suc n) [] = omega arith
length-drop-le (suc n) (b ∷ bytes) = omega (arith, length-drop-le n bytes)

length-drop-lt :
    (n b : ℕ) (bytes : List ℕ) → 1 ≤ n → length (drop n (b ∷ bytes)) < length (b ∷ bytes)
length-drop-lt zero b bytes h = omega (arith, h)
length-drop-lt (suc n) b bytes h = omega (arith, length-drop-le n bytes)

module _ (parse : List ℕ → Frame)
    -- a request takes a byte at least
    (advances : (bytes : List ℕ) (request : RpcRequest) (consumed : ℕ)
      → parse bytes ≡ reads request consumed
      → 1 ≤ consumed) where
  -- Two ways to go on that agree on what is shorter.
  abbrev AgreeBelow : ℕ → (List ℕ → Drained) → (List ℕ → Drained) → Type 0
  AgreeBelow n f g = (bytes : List ℕ) → length bytes < n → f bytes ≡ g bytes

  frame-AgreeBelow :
      (b : ℕ) (bytes : List ℕ) (f g : List ℕ → Drained)
      → AgreeBelow (length (b ∷ bytes)) f g
      → (frame : Frame) → parse (b ∷ bytes) ≡ frame
      → drain_frame parse frame (b ∷ bytes) f ≡ drain_frame parse frame (b ∷ bytes) g
  frame-AgreeBelow b bytes f g h (reads request consumed) e = ap (started request) (
      h (drop consumed (b ∷ bytes))
        (length-drop-lt consumed b bytes (advances (b ∷ bytes) request consumed e)))
  frame-AgreeBelow b bytes f g h incomplete e = refl
  frame-AgreeBelow b bytes f g h nothing e = refl
  frame-AgreeBelow b bytes f g h invalid e = elim (Option-cases (after_newline (b ∷ bytes))) [
    | inl n ↦ rw (n, drain_frame) refl
    | inr (rest, n) ↦ rw (n, drain_frame) (h rest (length-after_newline-lt (b ∷ bytes) rest n))
  ]

  trimmed-AgreeBelow :
      (bytes : List ℕ) (f g : List ℕ → Drained)
      → AgreeBelow (length bytes) f g
      → drain_trimmed parse bytes f ≡ drain_trimmed parse bytes g
  trimmed-AgreeBelow [] f g h = refl
  trimmed-AgreeBelow (b ∷ bytes) f g h = frame-AgreeBelow b bytes f g h (parse (b ∷ bytes)) refl

  drain-agrees :
      (fuel more : ℕ) (buffer : List ℕ)
      → length buffer < fuel
      → length buffer < more
      → drain parse fuel buffer ≡ drain parse more buffer
  unfolding drain
  drain-agrees zero more buffer h k = absurd (omega (arith, h))
  drain-agrees (suc fuel) zero buffer h k = absurd (omega (arith, k))
  drain-agrees (suc fuel) (suc more) buffer h k =
      trimmed-AgreeBelow (skip_whitespace buffer) (drain parse fuel) (drain parse more) (λ bytes l.
        drain-agrees fuel more bytes (omega (arith, l, h, length-skip-le buffer))
          (omega (arith, l, k, length-skip-le buffer)))

  -- If a request takes a byte at least, then whatever stands in the buffer, and whatever the parser
  -- finds in it, more turns than there are bytes, and one more, change nothing: the loop has ended.
  pub drain-length :
      (fuel : ℕ) (buffer : List ℕ)
      → length buffer < fuel
      → drain parse fuel buffer ≡ drain parse (suc (length buffer)) buffer
  drain-length fuel buffer h = drain-agrees fuel (suc (length buffer)) buffer h (omega arith)
