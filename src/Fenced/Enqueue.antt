-- ===== src/Fenced/Enqueue.antt =====
-- `queue/v2/enqueue` of src/fenced_queue.rs.
pub mod Stored
pub mod Idempotency
pub mod Joining
pub mod Retried
pub mod Rebound
use animus_queue_default.Common.{
  ℕ, String, Bool, true, false, not, Option, none, some, List, [], ◌∷◌, ◌++◌, find, map, or_else,
  unwrap_or, get_elem?, is_some, holds, set, if◌then◌else◌, ◌<>◌, Result, ok, err,
}
use animus_queue_default.Protocol.{SubjectGeneration, QueueEnqueueV2Request, QueueEnqueueV2Response}
use animus_queue_default.State.{DispatchQueueEntry, DispatchQueueState, default_entry, pending}
use animus_queue_default.State.Entry.{bound_request_hash}
use animus_queue_default.History.{find_history_by_idempotency_key}
use animus_queue_default.History.Record.{HistoryRecord}
use animus_queue_default.External.{External, World}
use animus_queue_default.Identity.{dispatch_task_id}
use animus_queue_default.Io.{Io, other, pure, raise, lift, lift_result, ◌>>=◌, ◌>>◌}
use animus_queue_default.Store.{acquire_queue_lock}
use animus_queue_default.Service.Base.{
  QueueCallError, invalid_params, load_or_default, commit, sweep_expired_entries,
}
use animus_queue_default.Fenced.Generation.{
  ensure_ticket_identity, live_entry_for_subject, next_subject_generation,
}
use animus_queue_default.Fenced.Request.{Enqueued, read_request}

abbrev pub receipt : Bool → String → SubjectGeneration → Option String → QueueEnqueueV2Response
receipt enqueued entry_id subject warning = record {
  enqueued = enqueued;
  entry_id = entry_id;
  subject = subject;
  warning = warning;
}

unfoldable pub has_key : String → DispatchQueueEntry → Bool
unfolding bound_request_hash
has_key key entry = is_some (bound_request_hash entry key)

abbrev record_entries : List HistoryRecord → List DispatchQueueEntry
record_entries = map (λ (r : HistoryRecord). r.entry)

receipt_parts :
    DispatchQueueEntry
    → String
    → Option String
    → Option ℕ
    → Result QueueCallError (Option QueueEnqueueV2Response)
receipt_parts entry key (some id) (some generation) = ok (
    some
      (receipt false entry.entry_id (record { qualified_id = id; generation = generation }) none))
receipt_parts entry key none generation = err (
    QueueCallError.backend (
      other (
        "queue entry " <> entry.entry_id <> " holds idempotency key " <> key
        <> " but no subject generation")))
receipt_parts entry key (some id) none = err (
    QueueCallError.backend (
      other (
        "queue entry " <> entry.entry_id <> " holds idempotency key " <> key
        <> " but no subject generation")))

-- The receipt of the entry that holds the key, or an error if the key is bound to other content.
unfoldable pub receipt_of :
    String
    → String
    → Option DispatchQueueEntry
    → Result QueueCallError (Option QueueEnqueueV2Response)
unfolding receipt_parts bound_request_hash
receipt_of key hash none = ok none
receipt_of key hash (some entry) =
    if not (holds (bound_request_hash entry key) hash)
    then err (invalid_params "idempotency_key is already bound to a different queue request")
    else receipt_parts entry key entry.subject_id entry.subject_generation

module _ (x : External) (w : World) where
  history_entry : Option HistoryRecord → Option DispatchQueueEntry
  history_entry none = none
  history_entry (some r) = some r.entry

  -- The live file comes first, then what this call swept, then the history.
  find_holder : String → Option DispatchQueueEntry → Io QueueCallError (Option DispatchQueueEntry)
  unfolding history_entry
  find_holder key (some entry) = pure (some entry)
  find_holder key none = do
    found ← lift QueueCallError.backend (find_history_by_idempotency_key x w key)
    pure (history_entry found)

  unfoldable pub idempotent_receipt :
      DispatchQueueState
      → List HistoryRecord
      → String
      → String
      → Io QueueCallError (Option QueueEnqueueV2Response)
  unfolding find_holder receipt_of has_key
  idempotent_receipt state swept key hash = do
    holder ←
        find_holder key
          (or_else (find (has_key key) state.entries) (find (has_key key) (record_entries swept)))
    lift_result (receipt_of key hash holder)

  replayed :
      DispatchQueueState
      → List HistoryRecord
      → Option String
      → String
      → Io QueueCallError (Option QueueEnqueueV2Response)
  unfolding idempotent_receipt
  replayed state swept none hash = pure none
  replayed state swept (some key) hash = idempotent_receipt state swept key hash

  -- `commit`, if anything was swept.
  commit_swept : DispatchQueueState → List HistoryRecord → Io QueueCallError (Unit {0})
  commit_swept state [] = pure tt
  commit_swept state (r ∷ rs) = lift QueueCallError.backend (commit x w state (r ∷ rs))

  unfoldable pub bind_key : Option String → String → DispatchQueueEntry → DispatchQueueEntry
  bind_key none hash entry = entry
  bind_key (some key) hash entry = record entry {
    extra_idempotency_keys =
        entry.extra_idempotency_keys ++ record { key = key; request_hash = hash } ∷ [];
  }

  reuse_ticketed :
      Enqueued
      → List HistoryRecord
      → ℕ
      → DispatchQueueEntry
      → DispatchQueueState × Result String SubjectGeneration
      → Io QueueCallError QueueEnqueueV2Response
  unfolding bind_key
  reuse_ticketed request swept index entry (state, err message) = raise (invalid_params message)
  reuse_ticketed request swept index entry (state, ok subject) = do
    let ticketed = unwrap_or (get_elem? state.entries index) entry
    let bound = bind_key request.idempotency_key request.request_hash ticketed
    lift QueueCallError.backend
        (commit x w (record state { entries = set state.entries index bound }) swept)
    pure (
        receipt false entry.entry_id subject (
          some (
            "subject " <> request.qualified_id
            <> " already has an active generation; enqueue rejected")))

  unfoldable pub new_entry : Enqueued → ℕ → DispatchQueueEntry
  new_entry request generation = record default_entry {
    entry_id = w.uuid 0;
    subject_id = some request.qualified_id;
    task_id = unwrap_or (dispatch_task_id request.dispatch) "";
    dispatch = some request.dispatch;
    status = pending;
    enqueued_at = some (x.to_rfc3339 w.now);
    run_at = request.run_at;
    expire_after_secs = request.expire_after_secs;
    subject_generation = some generation;
    repository = request.repository;
    idempotency_key = request.idempotency_key;
    request_hash = some request.request_hash;
  }

  add_entry :
      Enqueued
      → List HistoryRecord
      → DispatchQueueState × ℕ
      → Io QueueCallError QueueEnqueueV2Response
  unfolding new_entry
  add_entry request swept (state, generation) = do
    let entry = new_entry request generation
    lift QueueCallError.backend
        (commit x w (record state { entries = state.entries ++ entry ∷ [] }) swept)
    pure (
        receipt true entry.entry_id
          (record { qualified_id = request.qualified_id; generation = generation }) none)

  place :
      Enqueued
      → DispatchQueueState
      → List HistoryRecord
      → Option (ℕ × DispatchQueueEntry)
      → Io QueueCallError QueueEnqueueV2Response
  unfolding reuse_ticketed add_entry
  place request state swept (some (index, entry)) =
      reuse_ticketed request swept index entry (ensure_ticket_identity state index entry)
  place request state swept none =
      add_entry request swept (next_subject_generation state request.qualified_id)

  answer :
      Enqueued
      → DispatchQueueState
      → List HistoryRecord
      → Option QueueEnqueueV2Response
      → Io QueueCallError QueueEnqueueV2Response
  unfolding commit_swept place
  answer request state swept (some original) = do commit_swept state swept; pure original
  answer request state swept none =
      place request state swept (live_entry_for_subject state request.qualified_id)

  unfoldable pub enqueue_validated : Enqueued → Io QueueCallError QueueEnqueueV2Response
  unfolding replayed answer
  enqueue_validated request = do
    lift QueueCallError.backend (acquire_queue_lock w)
    loaded ← lift QueueCallError.backend (load_or_default w)
    let after = sweep_expired_entries x w.now loaded
    original ← replayed after.0 after.1 request.idempotency_key request.request_hash
    answer request after.0 after.1 original

  unfoldable pub enqueue_v2 : QueueEnqueueV2Request → Io QueueCallError QueueEnqueueV2Response
  unfolding enqueue_validated read_request
  enqueue_v2 request = do
    validated ← lift_result (read_request x request)
    enqueue_validated validated
