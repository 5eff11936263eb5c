-- ===== src/Calls.antt =====
-- The requests that src/plugin.rs dispatches to the queue, and what a sequence of them does to the
-- disk.
pub mod Kept
pub mod Growth
use animus_queue_default.Common.{ℕ, String, Option, List, [], ◌∷◌}
use animus_queue_default.Protocol.{
  SubjectDispatch, QueueEnqueueV2Request, QueueLeaseV2Request, QueueLeaseRenewRequest,
  QueueLeaseRecoverRequest, QueueCompletionV2Request, QueueReleasePendingV2Request,
}
use animus_queue_default.External.{External, World}
use animus_queue_default.Io.{Disk}
use animus_queue_default.Service.Base.{QueueBackend}
use animus_queue_default.Service.Mutations.{
  hold, release, mark_assigned, drop_entry, completion, release_pending,
}
use animus_queue_default.Service.Enqueue.{enqueue}
use animus_queue_default.Service.Lease.{lease}
use animus_queue_default.Service.Listing.{list, stats, next_deadline}
use animus_queue_default.Service.Reorder.{reorder}
use animus_queue_default.Fenced.Enqueue.{enqueue_v2}
use animus_queue_default.Fenced.Lease.{lease_v2}
use animus_queue_default.Fenced.Mutation.{
  renew_lease, recover_lease, completion_v2, release_pending_v2,
}

-- A request of the host, for each queue method of src/plugin.rs.
pub data Call : Type 0 where
  enqueues : SubjectDispatch → Option String → Option ℕ → Call
  lists : List String → Option ℕ → Option ℕ → Call
  leases : ℕ → Option (List String) → Option (List String) → Call
  counts next_deadlines : Call
  holds releases drops : String → Call
  releases_pending : String → String → Call
  reorders : List String → Call
  marks_assigned : String → Option String → Call
  completes : String → String → Option String → Option String → Call
  enqueues_v2 : QueueEnqueueV2Request → Call
  leases_v2 : QueueLeaseV2Request → Call
  renews : QueueLeaseRenewRequest → Call
  recovers : QueueLeaseRecoverRequest → Call
  completes_v2 : QueueCompletionV2Request → Call
  releases_pending_v2 : QueueReleasePendingV2Request → Call

module _ (x : External) (b : QueueBackend) where
  -- The disk after one call.
  unfoldable pub after_call : World → Call → Disk → Disk
  after_call w (enqueues dispatch run_at expire) d = (enqueue x w dispatch run_at expire d).0
  after_call w (lists filter limit offset) d = (list x w filter limit offset d).0
  after_call w (leases max ids exclude) d = (lease x b w max ids exclude d).0
  after_call w counts d = (stats x w d).0
  after_call w next_deadlines d = (next_deadline x w d).0
  after_call w (holds id) d = (hold x w id d).0
  after_call w (releases id) d = (release w id d).0
  after_call w (drops id) d = (drop_entry x w id d).0
  after_call w (releases_pending id reason) d = (release_pending x w id reason d).0
  after_call w (reorders ids) d = (reorder w ids d).0
  after_call w (marks_assigned id workflow_id) d = (mark_assigned x b w id workflow_id d).0
  after_call w (completes id status ref workflow_id) d =
      (completion x w id status ref workflow_id d).0
  after_call w (enqueues_v2 request) d = (enqueue_v2 x w request d).0
  after_call w (leases_v2 request) d = (lease_v2 x w b request d).0
  after_call w (renews request) d = (renew_lease x w b request d).0
  after_call w (recovers request) d = (recover_lease x w b request d).0
  after_call w (completes_v2 request) d = (completion_v2 x w request d).0
  after_call w (releases_pending_v2 request) d = (release_pending_v2 x w request d).0

  -- The disk after calls, which the queue's lock puts in an order.
  unfoldable pub after_calls : List (World × Call) → Disk → Disk
  unfolding after_call
  after_calls [] d = d
  after_calls ((w, call) ∷ calls) d = after_calls calls (after_call w call d)
