-- ===== src/Plugin/Refusals.antt =====
-- What src/plugin.rs answers to the old-style calls on an entry that has a ticket.
use animus_queue_default.Common.{
  ◌≡◌, refl, ap, sym, eq_iff, ℕ, String, true, Option, some, ok, err, arith, locate, ◌<>◌, ◌==◌,
  Bool-cases, inl, inr,
}
use animus_queue_default.Json.{Value}
use animus_queue_default.Rpc.{RpcError, RpcResponse, respond_error, queue_stale_fence}
use animus_queue_default.External.{World}
use animus_queue_default.Io.{Disk}
use animus_queue_default.State.{DispatchQueueEntry, DispatchQueueState}
use animus_queue_default.State.Entry.{is_ticketed}
use animus_queue_default.Store.Loading.{ReadsAs}
use animus_queue_default.Service.Base.{QueueBackend, QueueMutationError, QueueReleasePendingError}
use animus_queue_default.Service.Mutations.{has_id, mark_assigned, release_pending}
use animus_queue_default.Service.Mutations.Refusals.{ticketed-refused}
use animus_queue_default.Plugin.Wire.{Process}
use animus_queue_default.Plugin.Base.{
  Session, error_of, perform, with_disk, require_backend, parse_params, read_params,
  mutation_error_response,
}
use animus_queue_default.Plugin.Plain.{
  handle_mark_assigned, handle_release_pending, release_pending_error_response,
}

abbrev pub owned_error : String → RpcError
owned_error entry_id =
    error_of queue_stale_fence
      ("queue entry " <> entry_id <> " is owned by a generation-fenced lease; use queue/v2/*")

-- The answer is that error, and the disk of every project is as it was.
abbrev pub IsRefusedAs : Option Value → String → Session → Session × RpcResponse → Type 0
IsRefusedAs id entry_id s (after, response) =
    (response ≡ respond_error id (owned_error entry_id))
    × ((place : String) → after.disks place ≡ s.disks place)

-- A disk that is written as it is, is as it was.
with_disk-same :
    (p : Process) (disks : String → Disk) (root place : String)
    → with_disk p disks root (disks root) place ≡ disks place
with_disk-same p disks root place = elim (Bool-cases (place == root)) [
  | inl e ↦ rw e (ap disks (sym ((eq_iff place root).0 e)))
  | inr e ↦ rw e refl
]

module _ (p : Process) (w : World) (id : Option Value) (s : Session) (b : QueueBackend)
    (bound : s.backend ≡ some b) where
  mark_assigned-IsRefusedAs :
      (entry_id : String) (workflow_id : Option String) (params : Value)
      → p.wire.read_mark_assigned params
        ≡ ok (record { entry_id = entry_id; workflow_id = workflow_id })
      → let d = s.disks (p.place b.project_root) in
        mark_assigned p.external b w entry_id workflow_id d
          ≡ (d, err (QueueMutationError.fenced entry_id))
        → IsRefusedAs id entry_id s (handle_mark_assigned p w id (some params) s)
  unfolding handle_mark_assigned require_backend parse_params read_params perform
      mutation_error_response
  mark_assigned-IsRefusedAs entry_id workflow_id params e refused = (
    ground (arith, bound, e, refused),
    (λ place.
        ground (arith, bound, e, refused, with_disk-same p s.disks (p.place b.project_root) place)),
  )

  release_pending-IsRefusedAs :
      (entry_id reason : String) (params : Value)
      → p.wire.read_release_pending params ≡ ok (record { entry_id = entry_id; reason = reason })
      → let d = s.disks (p.place b.project_root) in
        release_pending p.external w entry_id reason d
          ≡ (d, err (QueueReleasePendingError.fenced entry_id))
        → IsRefusedAs id entry_id s (handle_release_pending p w id (some params) s)
  unfolding handle_release_pending require_backend parse_params read_params perform
      release_pending_error_response
  release_pending-IsRefusedAs entry_id reason params e refused = (
    ground (arith, bound, e, refused),
    (λ place.
        ground (arith, bound, e, refused, with_disk-same p s.disks (p.place b.project_root) place)),
  )

  -- On a disk that works, the requests of queue/mark_assigned and queue/release_pending that name a
  -- ticketed entry of the bound project, whatever else they hold, are answered with
  -- QUEUE_STALE_FENCE, and the disk of every project stays as it is.
  pub ticketed-IsRefusedAs :
      (state : DispatchQueueState)
      → ReadsAs w (s.disks (p.place b.project_root)) state
      → (entry_id : String) (i : ℕ) (entry : DispatchQueueEntry)
      → locate (has_id entry_id) state.entries ≡ some (i, entry)
      → is_ticketed entry ≡ true
      → (workflow_id : Option String) (reason : String) (mark put_back : Value)
      → p.wire.read_mark_assigned mark
        ≡ ok (record { entry_id = entry_id; workflow_id = workflow_id })
      → p.wire.read_release_pending put_back ≡ ok (record { entry_id = entry_id; reason = reason })
      → IsRefusedAs id entry_id s (handle_mark_assigned p w id (some mark) s)
        × IsRefusedAs id entry_id s (handle_release_pending p w id (some put_back) s)
  ticketed-IsRefusedAs state reads entry_id i entry found ticketed workflow_id reason mark put_back
        e f =
      let d = s.disks (p.place b.project_root) in
      let refused =
        ticketed-refused p.external b w d state reads entry_id i entry found ticketed workflow_id
          reason in
      (
        mark_assigned-IsRefusedAs entry_id workflow_id mark e refused.0,
        release_pending-IsRefusedAs entry_id reason put_back f refused.1,
      )
