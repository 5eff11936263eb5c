-- ===== src/History/Recovery.antt =====
-- What the history file gives back after appends, torn lines included.
use animus_queue_default.Common.{
  ℕ, ◌≡◌, refl, ap, ◌∙◌, Bool, false, Option, none, some, List, [], ◌∷◌, ◌++◌, All, arith, eqb,
  Bool-cases, inl, inr, if◌then◌else◌,
}
use animus_queue_default.External.{External, World}
use animus_queue_default.Io.{Disk}
use animus_queue_default.History.{
  newline, is_blank_line, split_from, split_lines, ends_without_newline, payload, appended,
  append_history, keep_match, read_line, scan_lines, find_in,
}
use animus_queue_default.History.Record.{HistoryRecord}

-- Appending nothing, and one element first.
append_nil : {A : Type 0} (xs : List A) → xs ++ [] ≡ xs
append_nil [] = refl
append_nil (x ∷ xs) = ap (◌∷◌ x) (append_nil xs)

append_one : {A : Type 0} (xs : List A) (y : A) (zs : List A) → (xs ++ y ∷ []) ++ zs ≡ xs ++ y ∷ zs
append_one [] y zs = refl
append_one (x ∷ xs) y zs = ap (◌∷◌ x) (append_one xs y zs)

-- A line that is ended by a newline is a line of its own, whatever comes after it.
split_from-newline :
    (line bytes more : List ℕ)
    → split_from line (bytes ++ newline ∷ more)
      ≡ split_from line (bytes ++ newline ∷ []) ++ split_from [] more
unfolding split_from
split_from-newline line [] more = refl
split_from-newline line (b ∷ bytes) more =
    ground (arith, split_from-newline [] bytes more, split_from-newline (line ++ b ∷ []) bytes more)

split_from-ended :
    (line : List ℕ) (b : ℕ) (bytes more : List ℕ)
    → ends_without_newline (b ∷ bytes) ≡ false
    → split_from line (b ∷ bytes ++ more) ≡ split_from line (b ∷ bytes) ++ split_from [] more
unfolding split_from ends_without_newline
split_from-ended line b [] more h = ground arith
split_from-ended line b (c ∷ bytes) more h =
    ground
      (arith, split_from-ended [] c bytes more h, split_from-ended (line ++ b ∷ []) c bytes more h)

-- No byte is a newline.
abbrev pub IsOneLine : List ℕ → Type 0
IsOneLine = All (λ b. eqb b newline ≡ false)

split_from-line :
    (line bytes more : List ℕ)
    → IsOneLine bytes
    → split_from line (bytes ++ newline ∷ more) ≡ (line ++ bytes) ∷ split_from [] more
unfolding split_from
split_from-line line [] more h = ground (arith, append_nil line)
split_from-line line (b ∷ bytes) more h =
    rw (h.0, split_from)
      (split_from-line (line ++ b ∷ []) bytes more h.1
        ∙ ap (λ l. l ∷ split_from [] more) (append_one line b bytes))

module _ (x : External) where
  -- serde_json writes a record on one line that is not blank, and reads it back.
  pub record IsReadable (r : HistoryRecord) : Type 0 where
    pub one_line : IsOneLine (x.encode_record r)
    pub not_blank : is_blank_line (x.encode_record r) ≡ false
    pub read_back : x.decode_record (x.encode_record r) ≡ some r

  module _ (matches : HistoryRecord → Bool) where
    -- The last record that matches, or else `found`.
    abbrev pub last_match : Option HistoryRecord → List HistoryRecord → Option HistoryRecord
    last_match found [] = found
    last_match found (r ∷ rs) = last_match (if matches r then some r else found) rs

    scan_lines-append :
        (found : Option HistoryRecord) (ls ms : List (List ℕ))
        → scan_lines x matches found (ls ++ ms)
          ≡ scan_lines x matches (scan_lines x matches found ls) ms
    unfolding scan_lines
    scan_lines-append found [] ms = refl
    scan_lines-append found (l ∷ ls) ms = scan_lines-append (read_line x matches found l) ls ms

    -- A newline behind the file adds at most a blank line.
    scan_lines-newline :
        (found : Option HistoryRecord) (line bytes : List ℕ)
        → scan_lines x matches found (split_from line (bytes ++ newline ∷ []))
          ≡ scan_lines x matches found (split_from line bytes)
    unfolding scan_lines split_from read_line is_blank_line
    scan_lines-newline found [] [] = refl
    scan_lines-newline found (a ∷ line) [] = refl
    scan_lines-newline found line (b ∷ bytes) = ground (
      arith,
      scan_lines-newline (read_line x matches found line) [] bytes,
      scan_lines-newline found (line ++ b ∷ []) bytes,
    )

    read_line-readable :
        (found : Option HistoryRecord) (r : HistoryRecord)
        → IsReadable r
        → read_line x matches found (x.encode_record r) ≡ (if matches r then some r else found)
    unfolding read_line keep_match
    read_line-readable found r h = ground (arith, h.not_blank, h.read_back)

    scan_lines-payload :
        (rs : List HistoryRecord) (found : Option HistoryRecord)
        → All IsReadable rs
        → scan_lines x matches found (split_from [] (payload x rs)) ≡ last_match found rs
    unfolding payload split_from scan_lines
    scan_lines-payload [] found h = refl
    scan_lines-payload (r ∷ rs) found (h, hs) =
        ap (scan_lines x matches found)
          (split_from-line [] (x.encode_record r) (payload x rs) h.one_line)
        ∙ ap (λ f. scan_lines x matches f (split_from [] (payload x rs)))
            (read_line-readable found r h)
        ∙ scan_lines-payload rs (if matches r then some r else found) hs

    -- However the file ends, a torn line or a whole one, after an append the last record that
    -- matches is the last of those appended that do, and if none does what was found before.
    pub find_in-appended :
        (file : List ℕ) (rs : List HistoryRecord)
        → All IsReadable rs
        → find_in x matches (file ++ appended x file rs) ≡ last_match (find_in x matches file) rs
    unfolding find_in split_lines appended ends_without_newline
    find_in-appended [] rs h = scan_lines-payload rs none h
    find_in-appended (b ∷ bytes) rs h = elim (Bool-cases (ends_without_newline (b ∷ bytes))) [
      | inl torn ↦
          rw (torn, appended)
            (ap (scan_lines x matches none) (split_from-newline [] (b ∷ bytes) (payload x rs))
              ∙ scan_lines-append none (split_from [] (b ∷ bytes ++ newline ∷ []))
                  (split_from [] (payload x rs))
              ∙ ap (λ f. scan_lines x matches f (split_from [] (payload x rs)))
                  (scan_lines-newline none [] (b ∷ bytes))
              ∙ scan_lines-payload rs _ h)
      | inr whole ↦
          rw (whole, appended)
            (ap (scan_lines x matches none) (split_from-ended [] b bytes (payload x rs) whole)
              ∙ scan_lines-append none (split_from [] (b ∷ bytes)) (split_from [] (payload x rs))
              ∙ scan_lines-payload rs _ h)
    ]

  -- The history is a file of its own.
  pub queue_json-append_history :
      (w : World) (records : List HistoryRecord) (d : Disk)
      → (append_history x w records d).0.queue_json ≡ d.queue_json
  unfolding append_history
  queue_json-append_history w [] d = refl
  queue_json-append_history w (r ∷ rs) d = ground arith
