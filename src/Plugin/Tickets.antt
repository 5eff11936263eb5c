-- ===== src/Plugin/Tickets.antt =====
-- The handler of src/plugin.rs for the ticketed methods, `queue/v2/*`.
use animus_queue_default.Common.{String, Option}
use animus_queue_default.Json.{Value}
use animus_queue_default.External.{World}
use animus_queue_default.Io.{Io}
use animus_queue_default.Service.Base.{QueueBackend, QueueCallError}
use animus_queue_default.Fenced.Enqueue.{enqueue_v2}
use animus_queue_default.Fenced.Lease.{lease_v2}
use animus_queue_default.Fenced.Mutation.{
  renew_lease, recover_lease, completion_v2, release_pending_v2,
}
use animus_queue_default.Plugin.Wire.{Process, Reads, Writes}
use animus_queue_default.Plugin.Base.{
  Reply, ◌>>=◌, require_backend, parse_params, to_value_response, call_error_response, perform,
}

module _ (p : Process) (w : World) (id : Option Value) (params : Option Value) where
  unfoldable pub handle_v2 :
      {Request Response : Type 0}
      → Reads Request
      → Writes Response
      → String
      → (QueueBackend → Request → Io QueueCallError Response)
      → Reply
  unfolding require_backend parse_params perform to_value_response call_error_response
  handle_v2 read write method call = do
    backend ← require_backend id
    request ← parse_params read id params method
    perform p backend (call backend request) (λ response. to_value_response write id response)
        (λ error. call_error_response p.wire id error method)

  unfoldable pub handle_enqueue_v2 : Reply
  unfolding handle_v2
  handle_enqueue_v2 =
      handle_v2 p.wire.read_enqueue_v2 p.wire.write_enqueue_v2 "queue/v2/enqueue"
        (λ backend request. enqueue_v2 p.external w request)

  unfoldable pub handle_lease_v2 : Reply
  unfolding handle_v2
  handle_lease_v2 =
      handle_v2 p.wire.read_lease_v2 p.wire.write_lease_v2 "queue/v2/lease"
        (λ backend request. lease_v2 p.external w backend request)

  unfoldable pub handle_renew : Reply
  unfolding handle_v2
  handle_renew =
      handle_v2 p.wire.read_renew p.wire.write_lease_mutation "queue/v2/lease/renew"
        (λ backend request. renew_lease p.external w backend request)

  unfoldable pub handle_recover : Reply
  unfolding handle_v2
  handle_recover =
      handle_v2 p.wire.read_recover p.wire.write_lease_mutation "queue/v2/lease/recover"
        (λ backend request. recover_lease p.external w backend request)

  unfoldable pub handle_completion_v2 : Reply
  unfolding handle_v2
  handle_completion_v2 =
      handle_v2 p.wire.read_completion_v2 p.wire.write_lease_mutation "queue/v2/completion"
        (λ backend request. completion_v2 p.external w request)

  unfoldable pub handle_release_pending_v2 : Reply
  unfolding handle_v2
  handle_release_pending_v2 =
      handle_v2 p.wire.read_release_pending_v2 p.wire.write_lease_mutation
        "queue/v2/release_pending" (λ backend request. release_pending_v2 p.external w request)
