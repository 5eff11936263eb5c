-- ===== src/History.antt =====
-- src/queue_history.rs: the history file as bytes, how records are appended and how they are found.
-- The records are in History/Record.antt.
pub mod Record
pub mod Recovery
use animus_queue_default.Common.{
  ℕ, ◌+◌, String, Bool, true, false, ◌&&◌, ◌||◌, not, Option, none, some, List, [], ◌∷◌, ◌++◌, ◌==◌,
  eqb, leb, take, is_empty, is_some, unwrap_or, if◌then◌else◌, ok, err,
}
use animus_queue_default.State.Entry.{bound_request_hash}
use animus_queue_default.External.{External, World, AppendResult, appends, refuses, tears}
use animus_queue_default.Io.{Disk, Io, IoError, append_failed, history_read_failed}
use Record.{HistoryRecord}

abbrev pub newline : ℕ
newline = 10

-- `u8::is_ascii_whitespace`.
unfoldable pub is_ascii_whitespace : ℕ → Bool
is_ascii_whitespace b = eqb b 32 || eqb b 9 || eqb b 10 || eqb b 12 || eqb b 13

unfoldable pub is_blank_line : List ℕ → Bool
unfolding is_ascii_whitespace
is_blank_line [] = true
is_blank_line (b ∷ line) = is_ascii_whitespace b && is_blank_line line

-- `BufRead::split(b'\n')`, with `line` the bytes read since the last newline.
unfoldable pub split_from : List ℕ → List ℕ → List (List ℕ)
split_from line [] = if is_empty line then [] else line ∷ []
split_from line (b ∷ bytes) =
    let next = split_from [] bytes in
    let longer = split_from (line ++ b ∷ []) bytes in if eqb b newline then line ∷ next else longer

unfoldable pub split_lines : List ℕ → List (List ℕ)
unfolding split_from
split_lines bytes = split_from [] bytes

unfoldable pub ends_without_newline : List ℕ → Bool
ends_without_newline [] = false
ends_without_newline (b ∷ bytes) =
    let rest = ends_without_newline bytes in if is_empty bytes then not (eqb b newline) else rest

module _ (x : External) where
  unfoldable pub payload : List HistoryRecord → List ℕ
  payload [] = []
  payload (r ∷ rs) = x.encode_record r ++ newline ∷ payload rs

  -- What an append of `records` writes behind the bytes `file`.
  unfoldable pub appended : List ℕ → List HistoryRecord → List ℕ
  unfolding payload ends_without_newline
  appended file records =
      if ends_without_newline file then newline ∷ payload records else payload records

  unfoldable pub write_bytes : AppendResult → List ℕ → List ℕ → Io IoError (Unit {0})
  write_bytes appends file bytes d = (record d { history = some (file ++ bytes) }, ok tt)
  write_bytes refuses file bytes d = (d, err append_failed)
  write_bytes (tears n) file bytes d =
      (record d { history = some (file ++ take n bytes) }, err append_failed)

  -- Records that are finished reach the file before `queue.json` is replaced.
  unfoldable pub append_history : World → List HistoryRecord → Io IoError (Unit {0})
  unfolding write_bytes appended
  append_history w [] d = (d, ok tt)
  append_history w (r ∷ rs) d =
      let file = unwrap_or d.history [] in write_bytes w.append file (appended file (r ∷ rs)) d

  module _ (matches : HistoryRecord → Bool) where
    unfoldable pub keep_match : Option HistoryRecord → Option HistoryRecord → Option HistoryRecord
    keep_match found none = found
    keep_match found (some r) = if matches r then some r else found

    -- A line that is blank or does not parse is skipped.
    unfoldable pub read_line : Option HistoryRecord → List ℕ → Option HistoryRecord
    unfolding is_blank_line keep_match
    read_line found line =
        if is_blank_line line then found else keep_match found (x.decode_record line)

    unfoldable pub scan_lines : Option HistoryRecord → List (List ℕ) → Option HistoryRecord
    unfolding read_line
    scan_lines found [] = found
    scan_lines found (line ∷ lines) = scan_lines (read_line found line) lines

    -- The last record in the bytes of a history file that matches.
    unfoldable pub find_in : List ℕ → Option HistoryRecord
    unfolding scan_lines split_lines
    find_in bytes = scan_lines none (split_lines bytes)

    unfoldable pub find_last : World → Io IoError (Option HistoryRecord)
    unfolding find_in
    find_last w d = elim d.history [
      | none ↦ (d, ok none)
      | some bytes ↦
          (d, if w.history_read_fails then err history_read_failed else ok (find_in bytes))
    ]

  unfoldable pub has_entry_id : String → HistoryRecord → Bool
  has_entry_id entry_id r = r.entry.entry_id == entry_id

  unfoldable pub has_idempotency_key : String → HistoryRecord → Bool
  unfolding bound_request_hash
  has_idempotency_key key r = is_some (bound_request_hash r.entry key)

  unfoldable pub find_history_by_entry_id : World → String → Io IoError (Option HistoryRecord)
  unfolding find_last has_entry_id
  find_history_by_entry_id w entry_id = find_last (has_entry_id entry_id) w

  unfoldable pub find_history_by_idempotency_key :
      World → String → Io IoError (Option HistoryRecord)
  unfolding find_last has_idempotency_key
  find_history_by_idempotency_key w key = find_last (has_idempotency_key key) w
