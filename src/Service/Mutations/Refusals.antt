-- ===== src/Service/Mutations/Refusals.antt =====
-- The old-style calls of src/queue_service.rs leave the entries of tickets alone.
use animus_queue_default.Common.{ℕ, ◌≡◌, String, true, Option, some, arith, locate, err}
use animus_queue_default.State.{DispatchQueueEntry, DispatchQueueState}
use animus_queue_default.State.Entry.{is_ticketed}
use animus_queue_default.External.{External, World}
use animus_queue_default.Io.{Disk}
use animus_queue_default.Store.{acquire_queue_lock}
use animus_queue_default.Store.Loading.{ReadsAs, load_queue_state-full}
use animus_queue_default.Service.Base.{QueueBackend, QueueMutationError, QueueReleasePendingError}
use animus_queue_default.Service.Mutations.{
  has_id, mutate_entry, mutate_loaded, mutate_found, save_mutated, mutation_error, mark_entry,
  mark_assigned, release_pending, release_loaded, release_found,
}

module _ (x : External) (b : QueueBackend) where
  -- On a disk that works, `queue/mark_assigned` and the old-style `queue/release_pending` of a
  -- ticketed entry are refused as fenced, whatever its status, and leave the disk as it is.
  pub ticketed-refused :
      (w : World) (d : Disk) (state : DispatchQueueState)
      → ReadsAs w d state
      → (id : String) (i : ℕ) (entry : DispatchQueueEntry)
      → locate (has_id id) state.entries ≡ some (i, entry)
      → is_ticketed entry ≡ true
      → (workflow_id : Option String) (reason : String)
      → (mark_assigned x b w id workflow_id d ≡ (d, err (QueueMutationError.fenced id)))
        × (release_pending x w id reason d ≡ (d, err (QueueReleasePendingError.fenced id)))
  unfolding mark_assigned mark_entry mutate_entry mutate_loaded mutate_found save_mutated
      mutation_error release_pending release_loaded release_found acquire_queue_lock
  ticketed-refused w d state r id i entry e t workflow_id reason =
      let loads = load_queue_state-full w d state r.sound.reads r.held r.current r.has_ids in
      (ground (arith, r.sound.locks, loads, e, t), ground (arith, r.sound.locks, loads, e, t))
