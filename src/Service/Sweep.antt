-- ===== src/Service/Sweep.antt =====
-- What the sweep of src/queue_service.rs drops, and what it writes down of it.
use animus_queue_default.Common.{
  ℕ, ◌≡◌, refl, ap, ◌∙◌, ◌<◌, ◌^◌, String, Bool, true, false, Option, some, none, List, [], ◌∷◌,
  Bool-cases, inl, inr, and_then-some, arith, if◌then◌else◌,
}
use animus_queue_default.State.{
  DispatchQueueEntry, DispatchQueueEntryStatus, status_eq, pending, assigned, held, unknown,
}
use animus_queue_default.State.Entry.{to_i64, parsed_run_at, expiry_deadline}
use animus_queue_default.History.Record.{HistoryRecord, dropped, finished}
use animus_queue_default.External.{External}
use animus_queue_default.Service.Base.{is_expired, past_deadline, sweep_record, sweep_entries}

-- A waiting entry whose `run_at` and window are times that can be read and held, and end before now.
pub record IsOverdue (x : External) (now : ℕ) (entry : DispatchQueueEntry) : Type 0 where
  pub run_at : String
  pub start : ℕ
  pub secs : ℕ
  pub window : ℕ
  pub deadline : ℕ
  pub waits : entry.status ≡ pending
  pub deferred : entry.run_at ≡ some run_at
  pub starts : x.parse_from_rfc3339 run_at ≡ some start
  pub expires : entry.expire_after_secs ≡ some secs
  pub fits : secs < 2 ^ 63
  pub lasts : x.try_seconds secs ≡ some window
  pub ends : x.checked_add_signed start window ≡ some deadline
  pub passed : deadline < now

-- The line of an entry that expired: without its dispatch and its audit log.
abbrev pub expiry_record : ℕ → DispatchQueueEntry → HistoryRecord
expiry_record now entry = record {
  outcome = dropped;
  finished_at = now;
  finished_by = "expiry-sweep";
  reason = some "run_at + expire_after_secs passed before the entry was leased";
  entry = record entry { dispatch = none; audit_log = [] };
}

-- Entries split in order: those that are overdue are written down, and all others are kept.
pub data IsSwept (x : External) (now : ℕ)
    : List DispatchQueueEntry → List DispatchQueueEntry → List HistoryRecord → Type 0 where
  done : IsSwept x now [] [] []
  keeps :
      {entry : DispatchQueueEntry} {entries kept : List DispatchQueueEntry}
      {records : List HistoryRecord}
      → ¬ IsOverdue x now entry
      → IsSwept x now entries kept records
      → IsSwept x now (entry ∷ entries) (entry ∷ kept) records
  drops :
      {entry : DispatchQueueEntry} {entries kept : List DispatchQueueEntry}
      {records : List HistoryRecord}
      → IsOverdue x now entry
      → IsSwept x now entries kept records
      → IsSwept x now (entry ∷ entries) kept (expiry_record now entry ∷ records)

module _ (x : External) (now : ℕ) where
  waiting :
      (status : DispatchQueueEntryStatus) (b : Bool)
      → (if status_eq status pending then b else false) ≡ true
      → (status ≡ pending) × (b ≡ true)
  waiting pending b e = (refl, e)
  waiting assigned b e = absurd (ground arith)
  waiting held b e = absurd (ground arith)
  waiting unknown b e = absurd (ground arith)

  past : (o : Option ℕ) → past_deadline x now o ≡ true → (d : ℕ) × (o ≡ some d) × (d < now)
  unfolding past_deadline
  past none e = absurd (ground arith)
  past (some d) e = (d, refl, ground arith)

  to_i64-some : (n m : ℕ) → to_i64 n ≡ some m → (n ≡ m) × (n < 2 ^ 63)
  unfolding to_i64
  to_i64-some n m e = ground (arith, e)

  is_expired-IsOverdue :
      (entry : DispatchQueueEntry) → is_expired x now entry ≡ true → IsOverdue x now entry
  unfolding is_expired expiry_deadline parsed_run_at
  is_expired-IsOverdue entry e =
      let (waits, late) = waiting entry.status _ e in
      let (deadline, ends, passed) = past _ late in
      let (start, at, after_start) = and_then-some _ _ deadline ends in
      let (run_at, deferred, starts) = and_then-some _ _ start at in
      let (secs, expires, after_secs) = and_then-some _ _ deadline after_start in
      let (n, i, after_fit) = and_then-some _ _ deadline after_secs in
      let (window, lasts, sum) = and_then-some _ _ deadline after_fit in
      let (same, fits) = to_i64-some secs n i in
      record {
        run_at = run_at;
        start = start;
        secs = secs;
        window = window;
        deadline = deadline;
        waits = waits;
        deferred = deferred;
        starts = starts;
        expires = expires;
        fits = fits;
        lasts = ap x.try_seconds same ∙ lasts;
        ends = sum;
        passed = passed;
      }

  IsOverdue-is_expired :
      (entry : DispatchQueueEntry) → IsOverdue x now entry → is_expired x now entry ≡ true
  unfolding is_expired expiry_deadline parsed_run_at to_i64 past_deadline
  IsOverdue-is_expired entry h =
      ground (arith, h.waits, h.deferred, h.starts, h.expires, h.fits, h.lasts, h.ends, h.passed)

  -- The sweep goes through the entries in order and drops those that wait and whose window, if they
  -- have a `run_at` and one that are times, ended before now. Each gives the history line of an entry
  -- that was dropped, in the same order; all other entries are kept as they are.
  pub sweep_entries-IsSwept :
      (entries : List DispatchQueueEntry)
      → let (kept, records) = sweep_entries x now entries in IsSwept x now entries kept records
  unfolding sweep_entries sweep_record finished
  sweep_entries-IsSwept [] = done
  sweep_entries-IsSwept (entry ∷ entries) = elim (Bool-cases (is_expired x now entry)) [
    | inl late ↦ rw late (drops (is_expired-IsOverdue entry late) (sweep_entries-IsSwept entries))
    | inr not_late ↦ rw not_late (
        keeps (λ h. ground (arith, not_late, IsOverdue-is_expired entry h))
          (sweep_entries-IsSwept entries))
  ]
