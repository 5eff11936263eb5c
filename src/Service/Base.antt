-- ===== src/Service/Base.antt =====
-- What the calls of src/queue_service.rs share: errors, the commit, the sweep of expired entries and
-- the wire form of an entry.
use animus_queue_default.Common.{
  ℕ, String, Bool, false, Option, none, some, List, [], ◌∷◌, ltb, unwrap_or, if◌then◌else◌,
}
use animus_queue_default.Protocol.{QueueEntry, QueueMutationResponse, SubjectDispatch}
use animus_queue_default.State.{
  DispatchQueueEntry, DispatchQueueState, default_state, pending, as_wire, status_eq,
}
use animus_queue_default.State.Entry.{expiry_deadline, subject_id_ref, task_id_ref}
use animus_queue_default.History.{append_history}
use animus_queue_default.History.Record.{HistoryRecord, dropped, finished}
use animus_queue_default.External.{External, World}
use animus_queue_default.Io.{Io, IoError, pure, ◌>>=◌, ◌>>◌}
use animus_queue_default.Store.{load_queue_state, save_queue_state}

-- The calls run on the disk below the project root. The lease length is a number of seconds.
pub record QueueBackend : Type 0 where
  pub project_root : String
  pub lease_ttl_secs : ℕ

pub data QueueCallError : Type 0 where
  invalid_params : String → QueueCallError
  backend : IoError → QueueCallError

pub data QueueLeaseError : Type 0 where
  workflow_id_count_mismatch : ℕ → ℕ → QueueLeaseError
  backend : IoError → QueueLeaseError

pub data QueueMutationError : Type 0 where
  not_pending : String → QueueMutationError
  fenced : String → QueueMutationError
  backend : IoError → QueueMutationError

pub data QueueReleasePendingError : Type 0 where
  not_found : String → QueueReleasePendingError
  fenced : String → QueueReleasePendingError
  not_assigned : String → String → QueueReleasePendingError
  backend : IoError → QueueReleasePendingError

abbrev pub response : Bool → Bool → QueueMutationResponse
response changed missing = record { changed = changed; not_found = missing }

-- `load_queue_state(..)?.unwrap_or_default()`.
unfoldable pub load_or_default : World → Io IoError DispatchQueueState
load_or_default w = do loaded ← load_queue_state w; pure (unwrap_or loaded default_state)

module _ (x : External) where
  -- `QueueBackend::commit`: the history first, then the state.
  unfoldable pub commit : World → DispatchQueueState → List HistoryRecord → Io IoError (Unit {0})
  commit w state records = do append_history x w records; save_queue_state w state

  unfoldable pub past_deadline : ℕ → Option ℕ → Bool
  past_deadline now none = false
  past_deadline now (some deadline) = ltb deadline now

  -- The test of the sweep: waiting, and past `run_at + expire_after_secs`.
  unfoldable pub is_expired : ℕ → DispatchQueueEntry → Bool
  unfolding past_deadline
  is_expired now entry =
      if status_eq entry.status pending then past_deadline now (expiry_deadline x entry) else false

  unfoldable pub sweep_record : ℕ → DispatchQueueEntry → HistoryRecord
  sweep_record now entry =
      finished now entry dropped "expiry-sweep"
        (some "run_at + expire_after_secs passed before the entry was leased")

  unfoldable pub sweep_entries :
      ℕ → List DispatchQueueEntry → List DispatchQueueEntry × List HistoryRecord
  unfolding is_expired sweep_record
  sweep_entries now [] = ([], [])
  sweep_entries now (entry ∷ entries) =
      let (kept, swept) = sweep_entries now entries in
      if is_expired now entry then (kept, sweep_record now entry ∷ swept) else (entry ∷ kept, swept)

  unfoldable pub sweep_expired_entries :
      ℕ → DispatchQueueState → DispatchQueueState × List HistoryRecord
  unfolding sweep_entries
  sweep_expired_entries now state =
      let (kept, swept) = sweep_entries now state.entries in
      (record state { entries = kept }, swept)

  wire_entry : World → DispatchQueueEntry → Option SubjectDispatch → Option QueueEntry
  wire_entry w entry none = none
  wire_entry w entry (some dispatch) = some (record {
    entry_id = entry.entry_id;
    subject_id = subject_id_ref entry;
    task_id = task_id_ref entry;
    subject_dispatch = dispatch;
    status = as_wire entry.status;
    workflow_id = entry.workflow_id;
    enqueued_at = unwrap_or entry.enqueued_at (x.to_rfc3339 w.now);
    assigned_at = entry.assigned_at;
    held_at = entry.held_at;
    run_at = entry.run_at;
    expire_after_secs = entry.expire_after_secs;
  })

  unfoldable pub entry_to_protocol : World → DispatchQueueEntry → Option QueueEntry
  unfolding wire_entry
  entry_to_protocol w entry = wire_entry w entry entry.dispatch
