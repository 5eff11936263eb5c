-- ===== src/Fenced/Ticket.antt =====
-- Tickets of src/fenced_queue.rs: the exact match of a fence, and branches in use.
pub mod Issued
use Prim.Native.String.{compare}
use Prim.Native.Nat.{Ordering}
use animus_queue_default.Common.{
  ℕ, String, Bool, true, false, ◌&&◌, Option, none, some, List, [], ◌∷◌, ◌==◌, eqb, holds,
  is_some_and, if◌then◌else◌,
}
use animus_queue_default.Protocol.{
  RepositoryReservation, SubjectGeneration, QueueLeaseFence, ExecutionFence, QueueLeaseBlock,
  QueueLeaseBlockReason, QueueLeaseMutationOutcome, QueueLeaseMutationResponse,
}
use animus_queue_default.State.{DispatchQueueEntry, assigned, status_eq}
use animus_queue_default.External.{External}

abbrev pub mutation_response :
    QueueLeaseMutationOutcome → Option ExecutionFence → Option String → QueueLeaseMutationResponse
mutation_response outcome execution reason = record {
  outcome = outcome;
  execution = execution;
  reason = reason;
}

abbrev pub lease_block : String → QueueLeaseBlockReason → Option ExecutionFence → QueueLeaseBlock
lease_block entry_id reason conflicts_with = record {
  entry_id = entry_id;
  reason = reason;
  conflicts_with = conflicts_with;
}

-- `option == Some(n)`.
abbrev pub holds_number : Option ℕ → ℕ → Bool
holds_number none n = false
holds_number (some m) n = eqb m n

module _ (x : External) where
  unfoldable pub same_repository :
      Option RepositoryReservation → Option RepositoryReservation → Bool
  same_repository none none = true
  same_repository none (some right) = false
  same_repository (some left) none = false
  same_repository (some left) (some right) =
      x.to_lowercase left.repository == x.to_lowercase right.repository
      && left.base_ref == right.base_ref
      && left.head_ref == right.head_ref

  unfoldable pub fence_parts_match :
      DispatchQueueEntry → ExecutionFence → Option SubjectGeneration → Option QueueLeaseFence → Bool
  unfolding same_repository
  fence_parts_match entry execution none lease = false
  fence_parts_match entry execution (some subject) none = false
  fence_parts_match entry execution (some subject) (some lease) =
      execution.schema == x.execution_fence_schema_id
      && eqb execution.version x.execution_fence_version
      && holds entry.workflow_id execution.workflow_id
      && holds_number entry.workflow_generation execution.workflow_generation
      && holds entry.subject_id subject.qualified_id
      && holds_number entry.subject_generation subject.generation
      && entry.entry_id == lease.entry_id
      && holds entry.lease_owner lease.owner_id
      && eqb entry.lease_generation lease.generation
      && same_repository execution.repository entry.repository

  unfoldable pub exact_fence_matches : DispatchQueueEntry → ExecutionFence → Bool
  unfolding fence_parts_match
  exact_fence_matches entry execution =
      fence_parts_match entry execution execution.subject execution.queue_lease

  unfoldable pub reserves : String → Option RepositoryReservation → Bool
  reserves key repository = is_some_and (λ held. x.collision_key held == key) repository

  unfoldable pub is_running_on : String → DispatchQueueEntry → Bool
  unfolding reserves
  is_running_on key entry = status_eq entry.status assigned && reserves key entry.repository

  -- `left < right` for the text of two instants, where a missing one is the least.
  is_before : Option String → Option String → Bool
  is_before none none = false
  is_before none (some right) = true
  is_before (some left) none = false
  is_before (some left) (some right) = elim (compare left right) [ Ordering.lt ↦ true | _ ↦ false ]

  unfoldable pub earlier_assigned :
      DispatchQueueEntry → Option DispatchQueueEntry → Option DispatchQueueEntry
  unfolding is_before
  earlier_assigned entry none = some entry
  earlier_assigned entry (some best) =
      if is_before entry.assigned_at best.assigned_at then some entry else some best

  -- `min_by`, which takes the first of equals.
  unfoldable pub first_assigned :
      String → Option DispatchQueueEntry → List DispatchQueueEntry → Option DispatchQueueEntry
  unfolding earlier_assigned is_running_on
  first_assigned key best [] = best
  first_assigned key best (entry ∷ entries) =
      first_assigned key (if is_running_on key entry then earlier_assigned entry best else best)
        entries

  -- The source returns the entry's index, which its caller uses to read the entry.
  unfoldable pub running_entry_on_branch :
      List DispatchQueueEntry → String → Option DispatchQueueEntry
  unfolding first_assigned
  running_entry_on_branch entries key = first_assigned key none entries
