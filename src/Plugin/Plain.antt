-- ===== src/Plugin/Plain.antt =====
-- The handlers of src/plugin.rs for the old-style methods of the queue.
use animus_queue_default.Common.{String, Option, none, some, [], ok, ◌<>◌, show_nat}
use animus_queue_default.Json.{Value, object, field, end, string, number, unsigned}
use animus_queue_default.Rpc.{
  RpcResponse, respond_error, invalid_params, queue_lease_workflow_id_count_mismatch,
  queue_stale_fence, queue_entry_not_assigned, queue_reorder_failed,
}
use animus_queue_default.External.{World}
use animus_queue_default.Io.{IoError}
use animus_queue_default.Service.Base.{
  QueueLeaseError, QueueReleasePendingError, workflow_id_count_mismatch, not_found, not_assigned,
}
use animus_queue_default.Service.Mutations
use animus_queue_default.Service.Enqueue.{EnqueueOutcome, enqueue}
use animus_queue_default.Service.Lease.{lease}
use animus_queue_default.Service.Listing.{list, stats, next_deadline}
use animus_queue_default.Service.Reorder.{reorder}
use animus_queue_default.Plugin.Wire.{Wire, Process, QueueEnqueueResponse, QueueListRequest}
use animus_queue_default.Plugin.Base.{
  Reply, Check, ◌>>=◌, error_of, internal_error_response, require_backend, parse_params,
  to_value_response, mutation_error_response, call_error_response, failed_text, perform,
}

abbrev pub no_filter : QueueListRequest
no_filter = record { status = []; limit = none; offset = none }

-- `queue/list` may come without params.
unfoldable pub read_list_params : Wire → Option Value → Option Value → Check QueueListRequest
unfolding parse_params
read_list_params t id none s = ok no_filter
read_list_params t id (some value) s = parse_params t.read_list id (some value) "queue/list" s

unfoldable pub enqueue_response : EnqueueOutcome → QueueEnqueueResponse
enqueue_response outcome = record {
  enqueued = outcome.enqueued;
  entry_id = outcome.entry_id;
  subject_id = outcome.subject_id;
  warning = outcome.warning;
}

module _ (t : Wire) (id : Option Value) where
  -- `internal_error_response(id, format!("{method} failed: {error:#}"))`.
  unfoldable pub internal_failed : String → IoError → RpcResponse
  unfolding internal_error_response
  internal_failed method error = internal_error_response id (failed_text t method error)

  unfoldable pub lease_error_response : QueueLeaseError → RpcResponse
  unfolding internal_failed
  lease_error_response (workflow_id_count_mismatch expected actual) = respond_error id (record {
    code = queue_lease_workflow_id_count_mismatch;
    message =
        "workflow_ids.len()=" <> show_nat actual <> " did not match max=" <> show_nat expected;
    data_value = some (
        object (
          field "expected" (number (unsigned expected))
            (field "actual" (number (unsigned actual)) end)));
  })
  lease_error_response (QueueLeaseError.backend error) = internal_failed "queue/lease" error

  unfoldable pub release_pending_error_response : QueueReleasePendingError → RpcResponse
  unfolding internal_failed
  release_pending_error_response (not_found entry_id) =
      respond_error id (error_of invalid_params ("entry_id not found: " <> entry_id))
  release_pending_error_response (QueueReleasePendingError.fenced entry_id) = respond_error id (
      error_of queue_stale_fence
        ("queue entry " <> entry_id <> " is owned by a generation-fenced lease; use queue/v2/*"))
  release_pending_error_response (not_assigned entry_id actual_state) = respond_error id (record {
    code = queue_entry_not_assigned;
    message = "entry " <> entry_id <> " is in state '" <> actual_state <> "', expected 'assigned'";
    data_value = some (object (field "actual_state" (string actual_state) end));
  })
  release_pending_error_response (QueueReleasePendingError.backend error) =
      internal_failed "queue/release_pending" error

module _ (p : Process) (w : World) (id : Option Value) (params : Option Value) where
  unfoldable pub handle_enqueue : Reply
  unfolding require_backend parse_params perform to_value_response call_error_response
      enqueue_response
  handle_enqueue = do
    backend ← require_backend id
    request ← parse_params p.wire.read_enqueue id params "queue/enqueue"
    perform p backend
        (enqueue p.external w request.subject_dispatch request.run_at request.expire_after_secs)
        (λ outcome. to_value_response p.wire.write_enqueue id (enqueue_response outcome))
        (λ error. call_error_response p.wire id error "queue/enqueue")

  unfoldable pub handle_list : Reply
  unfolding require_backend read_list_params perform to_value_response internal_failed
  handle_list = do
    backend ← require_backend id
    request ← read_list_params p.wire id params
    perform p backend (list p.external w request.status request.limit request.offset)
        (λ response. to_value_response p.wire.write_list id response)
        (λ error. internal_failed p.wire id "queue/list" error)

  unfoldable pub handle_lease : Reply
  unfolding require_backend parse_params perform to_value_response lease_error_response
  handle_lease = do
    backend ← require_backend id
    request ← parse_params p.wire.read_lease id params "queue/lease"
    perform p backend
        (lease p.external backend w request.max request.workflow_ids request.exclude_subjects)
        (λ response. to_value_response p.wire.write_lease id response)
        (λ error. lease_error_response p.wire id error)

  unfoldable pub handle_stats : Reply
  unfolding require_backend perform to_value_response internal_failed
  handle_stats = do
    backend ← require_backend id
    perform p backend (stats p.external w)
        (λ response. to_value_response p.wire.write_stats id response)
        (λ error. internal_failed p.wire id "queue/stats" error)

  unfoldable pub handle_next_deadline : Reply
  unfolding require_backend perform to_value_response internal_failed
  handle_next_deadline = do
    backend ← require_backend id
    perform p backend (next_deadline p.external w)
        (λ response. to_value_response p.wire.write_next_deadline id response)
        (λ error. internal_failed p.wire id "queue/next_deadline" error)

  unfoldable pub handle_hold : Reply
  unfolding require_backend parse_params perform to_value_response mutation_error_response
  handle_hold = do
    backend ← require_backend id
    request ← parse_params p.wire.read_hold id params "queue/hold"
    perform p backend (Mutations.hold p.external w request.entry_id)
        (λ response. to_value_response p.wire.write_mutation id response)
        (λ error. mutation_error_response p.wire id error "queue/hold")

  unfoldable pub handle_release : Reply
  unfolding require_backend parse_params perform to_value_response mutation_error_response
  handle_release = do
    backend ← require_backend id
    request ← parse_params p.wire.read_release id params "queue/release"
    perform p backend (Mutations.release w request.entry_id)
        (λ response. to_value_response p.wire.write_mutation id response)
        (λ error. mutation_error_response p.wire id error "queue/release")

  unfoldable pub handle_release_pending : Reply
  unfolding require_backend parse_params perform to_value_response release_pending_error_response
  handle_release_pending = do
    backend ← require_backend id
    request ← parse_params p.wire.read_release_pending id params "queue/release_pending"
    perform p backend (Mutations.release_pending p.external w request.entry_id request.reason)
        (λ response. to_value_response p.wire.write_release_pending id response)
        (λ error. release_pending_error_response p.wire id error)

  unfoldable pub handle_drop : Reply
  unfolding require_backend parse_params perform to_value_response internal_failed
  handle_drop = do
    backend ← require_backend id
    request ← parse_params p.wire.read_drop id params "queue/drop"
    perform p backend (Mutations.drop_entry p.external w request.entry_id)
        (λ response. to_value_response p.wire.write_mutation id response)
        (λ error. internal_failed p.wire id "queue/drop" error)

  unfoldable pub handle_reorder : Reply
  unfolding require_backend parse_params perform to_value_response
  handle_reorder = do
    backend ← require_backend id
    request ← parse_params p.wire.read_reorder id params "queue/reorder"
    perform p backend (reorder w request.entry_ids)
        (λ response. to_value_response p.wire.write_reorder id response)
        (λ error.
          respond_error id
            (error_of queue_reorder_failed (failed_text p.wire "queue/reorder" error)))

  unfoldable pub handle_mark_assigned : Reply
  unfolding require_backend parse_params perform to_value_response mutation_error_response
  handle_mark_assigned = do
    backend ← require_backend id
    request ← parse_params p.wire.read_mark_assigned id params "queue/mark_assigned"
    perform p backend
        (Mutations.mark_assigned p.external backend w request.entry_id request.workflow_id)
        (λ response. to_value_response p.wire.write_mutation id response)
        (λ error. mutation_error_response p.wire id error "queue/mark_assigned")

  unfoldable pub handle_completion : Reply
  unfolding require_backend parse_params perform to_value_response
  handle_completion = do
    backend ← require_backend id
    request ← parse_params p.wire.read_completion id params "queue/completion"
    perform p backend
        (Mutations.completion p.external w request.entry_id request.status request.workflow_ref
          request.workflow_id)
        (λ response. to_value_response p.wire.write_mutation id response)
        (λ error.
          respond_error id (error_of invalid_params (failed_text p.wire "queue/completion" error)))
