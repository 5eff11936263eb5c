-- ===== src/State/Entry.antt =====
-- The functions of src/dispatch_queue_state.rs on one entry.
use mathlib.Core.Option
use animus_queue_default.Common.{
  ℕ, String, Bool, not, Option, none, some, ◌==◌, ltb, eqb, is_blank, trim, find, filter_opt,
  unwrap_or, or_else, and_then, is_some, is_some_and, holds, if◌then◌else◌,
}
use animus_queue_default.Protocol.{SubjectDispatch, ExecutionFence}
use animus_queue_default.State.{DispatchQueueEntry, IdempotencyBinding, default_entry, pending}
use animus_queue_default.External.{External, World}
use animus_queue_default.Identity.{dispatch_legacy_key, dispatch_task_id}

abbrev is_filled : String → Bool
is_filled s = not (is_blank s)

unfoldable pub is_ticketed : DispatchQueueEntry → Bool
is_ticketed entry = is_some entry.subject_generation

unfoldable pub lease_is_live : DispatchQueueEntry → ℕ → Bool
lease_is_live entry now = is_some_and (λ expires_at. ltb now expires_at) entry.lease_expires_at

-- `DispatchQueueEntry::from_dispatch`.
unfoldable pub from_dispatch :
    External → World → SubjectDispatch → Option String → Option ℕ → DispatchQueueEntry
from_dispatch x w dispatch run_at expire_after_secs = record default_entry {
  entry_id = w.uuid 0;
  subject_id = dispatch_legacy_key dispatch;
  task_id = unwrap_or (dispatch_task_id dispatch) "";
  dispatch = some dispatch;
  status = pending;
  enqueued_at = some (x.to_rfc3339 w.now);
  run_at = run_at;
  expire_after_secs = expire_after_secs;
}

-- `i64::try_from(secs).ok()`.
unfoldable pub to_i64 : ℕ → Option ℕ
to_i64 secs = if ltb secs 0x8000000000000000 then some secs else none

infixl 5 ◌>>=◌
abbrev ◌>>=◌ : {A B : Type 0} → Option A → (A → Option B) → Option B
◌>>=◌ = and_then

module _ (x : External) where
  -- `None` when a part of the ticket's identity is missing.
  unfoldable pub execution_fence : DispatchQueueEntry → Option ExecutionFence
  execution_fence entry = do
    qualified_id ← filter_opt is_filled entry.subject_id
    subject_generation ← filter_opt (λ g. ltb 0 g) entry.subject_generation
    workflow_id ← filter_opt is_filled entry.workflow_id
    workflow_generation ← filter_opt (λ g. ltb 0 g) entry.workflow_generation
    owner_id ← filter_opt is_filled entry.lease_owner
    expires_at ← entry.lease_expires_at
    if eqb entry.lease_generation 0
        then none
        else some (record {
          schema = x.execution_fence_schema_id;
          version = x.execution_fence_version;
          workflow_id = workflow_id;
          workflow_generation = workflow_generation;
          subject = some (record { qualified_id = qualified_id; generation = subject_generation });
          queue_lease = some (record {
            entry_id = entry.entry_id;
            owner_id = owner_id;
            generation = entry.lease_generation;
            expires_at = expires_at;
          });
          repository = entry.repository;
        })

  unfoldable pub parsed_run_at : DispatchQueueEntry → Option ℕ
  parsed_run_at entry = and_then entry.run_at x.parse_from_rfc3339

  unfoldable pub is_deferred_until_future : DispatchQueueEntry → ℕ → Bool
  unfolding parsed_run_at
  is_deferred_until_future entry now = is_some_and (λ run_at. ltb now run_at) (parsed_run_at entry)

  unfoldable pub expiry_deadline : DispatchQueueEntry → Option ℕ
  unfolding parsed_run_at to_i64
  expiry_deadline entry = do
    run_at ← parsed_run_at entry
    expire_after ← entry.expire_after_secs
    secs ← to_i64 expire_after
    delta ← x.try_seconds secs
    x.checked_add_signed run_at delta

unfoldable pub bound_request_hash : DispatchQueueEntry → String → Option String
bound_request_hash entry key =
    if holds entry.idempotency_key key
    then some (unwrap_or entry.request_hash "")
    else Option.map (λ (binding : IdempotencyBinding). binding.request_hash)
        (find (λ (binding : IdempotencyBinding). binding.key == key) entry.extra_idempotency_keys)

unfoldable pub subject_id_ref : DispatchQueueEntry → String
subject_id_ref entry =
    unwrap_or
      (or_else (filter_opt is_filled (Option.map trim entry.subject_id))
        (and_then entry.dispatch (λ dispatch. dispatch.subject_id)))
      entry.task_id

unfoldable pub task_id_ref : DispatchQueueEntry → Option String
task_id_ref entry =
    or_else (and_then entry.dispatch dispatch_task_id)
      (if is_filled (trim entry.task_id) then some entry.task_id else none)
