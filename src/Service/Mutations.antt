-- ===== src/Service/Mutations.antt =====
-- The calls of src/queue_service.rs that change one entry: `queue/hold`, `queue/release`,
-- `queue/drop`, `queue/mark_assigned`, `queue/completion` and `queue/release_pending`.
pub mod Stored
pub mod Holding
pub mod Refusals
use animus_queue_default.Common.{
  ℕ, String, Bool, true, false, ◌&&◌, not, Option, none, some, [], ◌∷◌, ◌++◌, ◌==◌, unwrap_or,
  locate, set, remove_at, is_none_or, if◌then◌else◌, ◌<>◌, Result, ok, err,
}
use animus_queue_default.Protocol.{QueueMutationResponse, SubjectDispatch}
use animus_queue_default.State.{
  DispatchQueueEntry, DispatchQueueEntryStatus, DispatchQueueState, pending, assigned, held,
  unknown, as_wire, status_eq,
}
use animus_queue_default.State.Entry.{is_ticketed}
use animus_queue_default.History.Record.{HistoryOutcome, dropped, finished, from_completion_status}
use animus_queue_default.External.{External, World}
use animus_queue_default.Io.{Io, IoError, other, pure, raise, lift, ◌>>=◌, ◌>>◌}
use animus_queue_default.Store.{acquire_queue_lock, load_queue_state, save_queue_state}
use animus_queue_default.Service.Base.{
  QueueBackend, QueueMutationError, QueueReleasePendingError, response, commit,
}

-- The errors of a `mutate_entry` closure.
pub data MutationError : Type 0 where
  not_pending fenced : MutationError

-- A closure that mutates an entry returns the entry, and whether it changed.
abbrev pub Mutation : Type 0
Mutation = DispatchQueueEntry → Result MutationError (DispatchQueueEntry × Bool)

abbrev pub has_id : String → DispatchQueueEntry → Bool
has_id entry_id entry = entry.entry_id == entry_id

mutation_error : String → MutationError → QueueMutationError
mutation_error entry_id not_pending = QueueMutationError.not_pending entry_id
mutation_error entry_id fenced = QueueMutationError.fenced entry_id

save_mutated :
    World
    → String
    → DispatchQueueState
    → ℕ
    → Result MutationError (DispatchQueueEntry × Bool)
    → Io QueueMutationError QueueMutationResponse
unfolding mutation_error
save_mutated w entry_id state index (err e) = raise (mutation_error entry_id e)
save_mutated w entry_id state index (ok (entry, false)) = pure (response false false)
save_mutated w entry_id state index (ok (entry, true)) = do
  lift QueueMutationError.backend
      (save_queue_state w (record state { entries = set state.entries index entry }))
  pure (response true false)

mutate_found :
    World
    → String
    → Mutation
    → DispatchQueueState
    → Option (ℕ × DispatchQueueEntry)
    → Io QueueMutationError QueueMutationResponse
unfolding save_mutated
mutate_found w entry_id mutate state none = pure (response false true)
mutate_found w entry_id mutate state (some (index, entry)) =
    save_mutated w entry_id state index (mutate entry)

mutate_loaded :
    World
    → String
    → Mutation
    → Option DispatchQueueState
    → Io QueueMutationError QueueMutationResponse
unfolding mutate_found
mutate_loaded w entry_id mutate none = pure (response false true)
mutate_loaded w entry_id mutate (some state) =
    mutate_found w entry_id mutate state (locate (has_id entry_id) state.entries)

unfoldable pub mutate_entry :
    World → String → Mutation → Io QueueMutationError QueueMutationResponse
unfolding mutate_loaded
mutate_entry w entry_id mutate = do
  lift QueueMutationError.backend (acquire_queue_lock w)
  loaded ← lift QueueMutationError.backend (load_queue_state w)
  mutate_loaded w entry_id mutate loaded

module _ (x : External) (w : World) where
  hold_status : DispatchQueueEntryStatus → Mutation
  hold_status held entry = ok (entry, false)
  hold_status pending entry =
      ok (record entry { status = held; held_at = some (x.to_rfc3339 w.now) }, true)
  hold_status assigned entry = err not_pending
  hold_status unknown entry = err not_pending

  unfoldable pub hold_entry : Mutation
  unfolding hold_status
  hold_entry entry = hold_status entry.status entry

  unfoldable pub hold : String → Io QueueMutationError QueueMutationResponse
  unfolding mutate_entry hold_entry
  hold entry_id = mutate_entry w entry_id hold_entry

release_status : DispatchQueueEntryStatus → Mutation
release_status pending entry = ok (entry, false)
release_status held entry = ok (record entry { status = pending; held_at = none }, true)
release_status assigned entry = err not_pending
release_status unknown entry = err not_pending

unfoldable pub release_entry : Mutation
unfolding release_status
release_entry entry = release_status entry.status entry

unfoldable pub release : World → String → Io QueueMutationError QueueMutationResponse
unfolding mutate_entry release_entry
release w entry_id = mutate_entry w entry_id release_entry

module _ (x : External) (b : QueueBackend) (w : World) where
  mark_status : Option String → DispatchQueueEntryStatus → Mutation
  mark_status workflow_id assigned entry = ok (entry, false)
  mark_status workflow_id pending entry =
      let id = unwrap_or workflow_id (w.uuid 0) in
      ok (
        record entry {
          status = assigned;
          workflow_id = some id;
          lease_owner = some id;
          lease_expires_at = some (x.add_seconds w.now b.lease_ttl_secs);
          assigned_at = some (x.to_rfc3339 w.now);
        },
        true,
      )
  mark_status workflow_id held entry = err not_pending
  mark_status workflow_id unknown entry = err not_pending

  unfoldable pub mark_entry : Option String → Mutation
  unfolding mark_status is_ticketed
  mark_entry workflow_id entry =
      if is_ticketed entry then err fenced else mark_status workflow_id entry.status entry

  unfoldable pub mark_assigned :
      String → Option String → Io QueueMutationError QueueMutationResponse
  unfolding mutate_entry mark_entry
  mark_assigned entry_id workflow_id = mutate_entry w entry_id (mark_entry workflow_id)

module _ (x : External) (w : World) where
  -- The entry leaves the queue, with its line in the history.
  remove_found :
      DispatchQueueState
      → HistoryOutcome
      → String
      → Option (ℕ × DispatchQueueEntry)
      → Io IoError QueueMutationResponse
  remove_found state outcome method none = pure (response false true)
  remove_found state outcome method (some (index, entry)) = do
    commit x w (record state { entries = remove_at state.entries index })
        (finished w.now entry outcome method none ∷ [])
    pure (response true false)

  drop_loaded : String → Option DispatchQueueState → Io IoError QueueMutationResponse
  unfolding remove_found
  drop_loaded entry_id none = pure (response false true)
  drop_loaded entry_id (some state) =
      remove_found state dropped "queue/drop" (locate (has_id entry_id) state.entries)

  unfoldable pub drop_entry : String → Io IoError QueueMutationResponse
  unfolding drop_loaded
  drop_entry entry_id = do
    acquire_queue_lock w
    loaded ← load_queue_state w
    drop_loaded entry_id loaded

  -- Only a running entry is finished, and only if what the caller gives of its workflow fits.
  unfoldable pub is_completed_by :
      String → Option String → Option String → DispatchQueueEntry → Bool
  is_completed_by entry_id workflow_ref workflow_id entry =
      entry.entry_id == entry_id
      && status_eq entry.status assigned
      && is_none_or
          (λ ref.
            is_none_or (λ (dispatch : SubjectDispatch). dispatch.workflow_ref == ref)
              entry.dispatch)
          workflow_ref
      && is_none_or (λ id. is_none_or (λ existing. existing == id) entry.workflow_id) workflow_id

  complete_loaded :
      HistoryOutcome
      → String
      → Option String
      → Option String
      → Option DispatchQueueState
      → Io IoError QueueMutationResponse
  unfolding remove_found is_completed_by
  complete_loaded outcome entry_id workflow_ref workflow_id none = pure (response false true)
  complete_loaded outcome entry_id workflow_ref workflow_id (some state) =
      remove_found state outcome "queue/completion"
        (locate (is_completed_by entry_id workflow_ref workflow_id) state.entries)

  complete_status :
      String
      → Option HistoryOutcome
      → String
      → Option String
      → Option String
      → Io IoError QueueMutationResponse
  unfolding complete_loaded
  complete_status status none entry_id workflow_ref workflow_id = raise (
      other (
        "invalid completion status: '" <> status
        <> "' (expected one of: completed, failed, cancelled)"))
  complete_status status (some outcome) entry_id workflow_ref workflow_id = do
    acquire_queue_lock w
    loaded ← load_queue_state w
    complete_loaded outcome entry_id workflow_ref workflow_id loaded

  unfoldable pub completion :
      String → String → Option String → Option String → Io IoError QueueMutationResponse
  unfolding complete_status from_completion_status
  completion entry_id status workflow_ref workflow_id =
      complete_status status (from_completion_status status) entry_id workflow_ref workflow_id

  unfoldable pub released_entry : String → DispatchQueueEntry → DispatchQueueEntry
  released_entry reason entry = record entry {
    status = pending;
    assigned_at = none;
    workflow_id = none;
    lease_owner = none;
    lease_expires_at = none;
    audit_log =
        entry.audit_log
        ++ record {
          at = x.to_rfc3339 w.now;
          method = "queue/release_pending";
          from_status = as_wire entry.status;
          to_status = "pending";
          reason = reason;
        }
          ∷ [];
  }

  release_found :
      String
      → String
      → DispatchQueueState
      → Option (ℕ × DispatchQueueEntry)
      → Io QueueReleasePendingError (String × String)
  unfolding released_entry is_ticketed
  release_found entry_id reason state none = raise (QueueReleasePendingError.not_found entry_id)
  release_found entry_id reason state (some (index, entry)) =
      if is_ticketed entry
      then raise (QueueReleasePendingError.fenced entry_id)
      else if not (status_eq entry.status assigned)
      then raise (QueueReleasePendingError.not_assigned entry_id (as_wire entry.status))
      else do
        lift QueueReleasePendingError.backend (
            save_queue_state w
              (record state { entries = set state.entries index (released_entry reason entry) }))
        pure (entry_id, "pending")

  release_loaded :
      String → String → Option DispatchQueueState → Io QueueReleasePendingError (String × String)
  unfolding release_found
  release_loaded entry_id reason none = raise (QueueReleasePendingError.not_found entry_id)
  release_loaded entry_id reason (some state) =
      release_found entry_id reason state (locate (has_id entry_id) state.entries)

  -- The response is the entry's id and its new status.
  unfoldable pub release_pending : String → String → Io QueueReleasePendingError (String × String)
  unfolding release_loaded
  release_pending entry_id reason = do
    lift QueueReleasePendingError.backend (acquire_queue_lock w)
    loaded ← lift QueueReleasePendingError.backend (load_queue_state w)
    release_loaded entry_id reason loaded
