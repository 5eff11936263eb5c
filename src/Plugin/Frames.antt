-- ===== src/Plugin/Frames.antt =====
-- The reader of src/plugin.rs: requests out of the bytes of stdin, which come in chunks.
pub mod Framed
pub mod Turns
pub mod Progress
pub mod Chunks
use mathlib.Core.Option
use animus_queue_default.Common.{
  ℕ, zero, suc, String, Bool, Option, none, some, List, [], ◌∷◌, ◌++◌, drop, length, eqb,
  if◌then◌else◌,
}
use animus_queue_default.Rpc.{RpcRequest}
use animus_queue_default.History.{newline, is_ascii_whitespace}

-- What `stream.next()` finds at the start of the buffer: a request and how many bytes it takes; an
-- error at the end of the buffer; another error; or no value.
pub data Frame : Type 0 where
  reads : RpcRequest → ℕ → Frame
  incomplete invalid nothing : Frame

unfoldable pub skip_whitespace : List ℕ → List ℕ
unfolding is_ascii_whitespace
skip_whitespace [] = []
skip_whitespace (b ∷ bytes) =
    let rest = skip_whitespace bytes in if is_ascii_whitespace b then rest else b ∷ bytes

-- What stands behind the next newline.
unfoldable pub after_newline : List ℕ → Option (List ℕ)
after_newline [] = none
after_newline (b ∷ bytes) =
    let rest = after_newline bytes in if eqb b newline then some bytes else rest

-- The requests that are started, and the bytes that stay in the buffer.
abbrev pub Drained : Type 0
Drained = List RpcRequest × List ℕ

abbrev pub started : RpcRequest → Drained → Drained
started request (requests, left) = (request ∷ requests, left)

module _ (parse : List ℕ → Frame) where
  abbrev pub drain_frame : Frame → List ℕ → (List ℕ → Drained) → Drained
  drain_frame (reads request consumed) bytes next = started request (next (drop consumed bytes))
  drain_frame incomplete bytes next = ([], bytes)
  drain_frame nothing bytes next = ([], bytes)
  drain_frame invalid bytes next = elim (after_newline bytes) [
    | some rest ↦ next rest
    | none ↦ ([], bytes)
  ]

  abbrev pub drain_trimmed : List ℕ → (List ℕ → Drained) → Drained
  drain_trimmed [] next = ([], [])
  drain_trimmed (b ∷ bytes) next = drain_frame (parse (b ∷ bytes)) (b ∷ bytes) next

  -- The inner loop of `run`. Each turn that goes on takes a byte at least, so as many turns as
  -- there are bytes, and one more, are enough.
  unfoldable pub drain : ℕ → List ℕ → Drained
  unfolding skip_whitespace after_newline
  drain zero buffer = ([], buffer)
  drain (suc fuel) buffer = drain_trimmed (skip_whitespace buffer) (drain fuel)

  -- The outer loop of `run`: the chunks that `stdin.read` gives, until it gives none.
  unfoldable pub read_chunks : List ℕ → List (List ℕ) → Drained
  unfolding drain
  read_chunks buffer [] = ([], buffer)
  read_chunks buffer (chunk ∷ chunks) =
      let filled = buffer ++ chunk in
      let (requests, left) = drain (suc (length filled)) filled in
      let (more, last) = read_chunks left chunks in (requests ++ more, last)
