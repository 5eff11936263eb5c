-- ===== src/Fenced/Mutation.antt =====
-- The four ticket calls of src/fenced_queue.rs: `queue/v2/lease/renew`, `queue/v2/lease/recover`,
-- `queue/v2/completion` and `queue/v2/release_pending`.
pub mod Stored
pub mod Fencing
pub mod Outcomes
pub mod Completion
use animus_queue_default.Common.{
  ℕ, ◌+◌, String, Bool, true, false, ◌&&◌, not, Option, none, some, [], ◌∷◌, ◌++◌, u64, trim,
  is_blank, min, max, locate, set, remove_at, holds, unwrap_or, if◌then◌else◌, ◌<>◌,
}
use animus_queue_default.Protocol.{
  QueueLeaseFence, ExecutionFence, QueueLeaseMutationOutcome, QueueLeaseMutationResponse,
  QueueLeaseRenewRequest, QueueLeaseRecoverRequest, QueueCompletionV2Request,
  QueueReleasePendingV2Request, applied, already_applied, not_assigned, stale_fence,
  lease_still_live,
}
use animus_queue_default.State.{
  DispatchQueueEntry, DispatchQueueState, pending, assigned, as_wire, status_eq,
}
use animus_queue_default.State.Entry.{execution_fence, lease_is_live, to_i64}
use animus_queue_default.History.{find_history_by_entry_id}
use animus_queue_default.History.Record.{
  HistoryOutcome, HistoryRecord, dropped, finished, state_word, from_completion_status,
}
use animus_queue_default.External.{External, World}
use animus_queue_default.Io.{Io, other, pure, raise, lift, ◌>>=◌, ◌>>◌}
use animus_queue_default.Store.{acquire_queue_lock}
use animus_queue_default.Service.Base.{
  QueueBackend, QueueCallError, invalid_params, load_or_default, commit,
}
use animus_queue_default.Service.Mutations.{has_id}
use animus_queue_default.Fenced.Ticket.{mutation_response, exact_fence_matches}

pub data FencedOperation : Type 0 where
  renew : ℕ → FencedOperation
  recover : String → ℕ → FencedOperation
  complete : HistoryOutcome → FencedOperation
  release_pending : String → FencedOperation

abbrev Response : Type 0
Response = QueueLeaseMutationResponse

abbrev is_release : FencedOperation → Bool
is_release (release_pending reason) = true
is_release _ = false

abbrev is_complete : FencedOperation → Bool
is_complete (complete outcome) = true
is_complete _ = false

abbrev pub is_dropped : HistoryOutcome → Bool
is_dropped dropped = true
is_dropped _ = false

-- `lease_expires_at.max(Some(renewed))`.
unfoldable pub later_expiry : Option ℕ → ℕ → Option ℕ
later_expiry none renewed = some renewed
later_expiry (some expires_at) renewed = some (max expires_at renewed)

module _ (x : External) (w : World) where
  unfoldable pub recovered_entry : String → ℕ → DispatchQueueEntry → DispatchQueueEntry
  recovered_entry new_owner_id ttl_secs entry = record entry {
    lease_owner = some new_owner_id;
    lease_generation = u64 (entry.lease_generation + 1);
    lease_expires_at = some (x.add_seconds w.now ttl_secs);
  }

  unfoldable pub renewed_entry : ℕ → DispatchQueueEntry → DispatchQueueEntry
  unfolding later_expiry
  renewed_entry ttl_secs entry = record entry {
    lease_expires_at = later_expiry entry.lease_expires_at (x.add_seconds w.now ttl_secs);
  }

  -- The workflow id and the ticket stay, for the next hand-out.
  unfoldable pub put_back_entry : String → DispatchQueueEntry → DispatchQueueEntry
  put_back_entry reason entry = record entry {
    status = pending;
    assigned_at = none;
    audit_log =
        entry.audit_log
        ++ record {
          at = x.to_rfc3339 w.now;
          method = "queue/v2/release_pending";
          from_status = "assigned";
          to_status = "pending";
          reason = reason;
        }
          ∷ [];
  }

  unfoldable pub save_entry :
      DispatchQueueState
      → ℕ
      → DispatchQueueEntry
      → Option ExecutionFence
      → Io QueueCallError Response
  save_entry state index entry execution = do
    lift QueueCallError.backend
        (commit x w (record state { entries = set state.entries index entry }) [])
    pure (mutation_response applied execution none)

  -- `entry` is running under the ticket that the caller shows.
  unfoldable pub apply_operation :
      DispatchQueueState → ℕ → DispatchQueueEntry → FencedOperation → Io QueueCallError Response
  unfolding save_entry recovered_entry renewed_entry put_back_entry
  apply_operation state index entry (recover new_owner_id ttl_secs) =
      if is_blank new_owner_id
      then raise (invalid_params "lease recovery requires a different non-empty owner")
      else if holds entry.lease_owner new_owner_id
      then raise (invalid_params "lease recovery requires a different non-empty owner")
      else if lease_is_live entry w.now
      then pure (mutation_response lease_still_live (execution_fence x entry) none)
      else let taken = recovered_entry new_owner_id ttl_secs entry in
        save_entry state index taken (execution_fence x taken)
  apply_operation state index entry (renew ttl_secs) =
      if not (lease_is_live entry w.now)
      then pure (
          mutation_response stale_fence none (some "queue lease has expired and requires recovery"))
      else let renewed = renewed_entry ttl_secs entry in
        save_entry state index renewed (execution_fence x renewed)
  apply_operation state index entry (complete outcome) = do
    lift QueueCallError.backend (
        commit x w (record state { entries = remove_at state.entries index })
          (finished w.now entry outcome "queue/v2/completion" none ∷ []))
    pure (mutation_response applied (execution_fence x entry) none)
  apply_operation state index entry (release_pending reason) =
      save_entry state index (put_back_entry reason entry) none

  unfoldable pub mutate_live :
      ExecutionFence
      → FencedOperation
      → DispatchQueueState
      → ℕ
      → DispatchQueueEntry
      → Io QueueCallError Response
  unfolding apply_operation
  mutate_live execution operation state index entry =
      if is_release operation
        && status_eq entry.status pending
        && exact_fence_matches x entry execution
      then pure (mutation_response already_applied none none)
      else if not (status_eq entry.status assigned)
      then pure
          (mutation_response not_assigned none (some ("queue entry is " <> as_wire entry.status)))
      else if not (exact_fence_matches x entry execution)
      then pure (
          mutation_response stale_fence none (some "execution fence does not own this queue lease"))
      else apply_operation state index entry operation

  unfoldable pub answer_finished :
      ExecutionFence → FencedOperation → Option HistoryRecord → Response
  answer_finished execution operation none =
      mutation_response QueueLeaseMutationOutcome.not_found none none
  answer_finished execution operation (some r) =
      if is_complete operation
        && not (is_dropped r.outcome)
        && exact_fence_matches x r.entry execution
      then mutation_response already_applied (execution_fence x r.entry) none
      else mutation_response not_assigned none (some ("queue entry is " <> state_word r.outcome))

  -- An entry that is no longer live is answered for from its last history line.
  unfoldable pub finished_entry_outcome :
      String → ExecutionFence → FencedOperation → Io QueueCallError Response
  unfolding answer_finished
  finished_entry_outcome entry_id execution operation = do
    found ← lift QueueCallError.backend (find_history_by_entry_id x w entry_id)
    pure (answer_finished execution operation found)

  mutate_located :
      String
      → ExecutionFence
      → FencedOperation
      → DispatchQueueState
      → Option (ℕ × DispatchQueueEntry)
      → Io QueueCallError Response
  unfolding mutate_live finished_entry_outcome
  mutate_located entry_id execution operation state none =
      finished_entry_outcome entry_id execution operation
  mutate_located entry_id execution operation state (some (index, entry)) =
      mutate_live execution operation state index entry

  -- Without a lease in the fence the source panics: `validate` refuses such a fence.
  mutate_lease :
      Option QueueLeaseFence → ExecutionFence → FencedOperation → Io QueueCallError Response
  unfolding mutate_located
  mutate_lease none execution operation =
      raise (QueueCallError.backend (other "validate_queue_backed() requires queue_lease"))
  mutate_lease (some lease) execution operation = do
    lift QueueCallError.backend (acquire_queue_lock w)
    state ← lift QueueCallError.backend (load_or_default w)
    mutate_located lease.entry_id execution operation state
        (locate (has_id lease.entry_id) state.entries)

  unfoldable pub fenced_mutation : ExecutionFence → FencedOperation → Io QueueCallError Response
  unfolding mutate_lease
  fenced_mutation execution operation = mutate_lease execution.queue_lease execution operation

  check_valid : Option String → Io QueueCallError (Unit {0})
  check_valid none = pure tt
  check_valid (some message) = raise (invalid_params message)

  complete_with : ExecutionFence → Option HistoryOutcome → Io QueueCallError Response
  unfolding fenced_mutation
  complete_with execution none =
      raise (QueueCallError.backend (other "validate() accepts only terminal statuses"))
  complete_with execution (some outcome) = fenced_mutation execution (complete outcome)

  unfoldable pub completion_v2 : QueueCompletionV2Request → Io QueueCallError Response
  unfolding check_valid complete_with from_completion_status
  completion_v2 request = do
    check_valid (x.validate_completion request)
    complete_with request.execution (from_completion_status request.status)

  unfoldable pub release_pending_v2 : QueueReleasePendingV2Request → Io QueueCallError Response
  unfolding check_valid fenced_mutation trim
  release_pending_v2 request = do
    check_valid (x.validate_release_pending request)
    fenced_mutation request.execution (release_pending (trim request.reason))

  module _ (b : QueueBackend) where
    -- A number of seconds past the range of `i64` counts as its maximum.
    unfoldable pub requested_ttl : Option ℕ → ℕ
    unfolding to_i64
    requested_ttl none = b.lease_ttl_secs
    requested_ttl (some secs) = min (unwrap_or (to_i64 secs) 0x7fffffffffffffff) b.lease_ttl_secs

    unfoldable pub renew_lease : QueueLeaseRenewRequest → Io QueueCallError Response
    unfolding check_valid fenced_mutation requested_ttl
    renew_lease request = do
      check_valid (x.validate_renew request)
      fenced_mutation request.execution (renew (requested_ttl request.ttl_secs))

    unfoldable pub recover_lease : QueueLeaseRecoverRequest → Io QueueCallError Response
    unfolding check_valid fenced_mutation requested_ttl trim
    recover_lease request = do
      check_valid (x.validate_recover request)
      fenced_mutation request.execution
          (recover (trim request.new_owner_id) (requested_ttl request.ttl_secs))
