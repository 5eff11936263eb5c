-- ===== src/Plugin/Replies.antt =====
-- Which requests src/plugin.rs answers, and with which id.
use animus_queue_default.Common.{◌≡◌, refl, String, Option, none, some, arith, Result, ok, err}
use animus_queue_default.Json.{Value}
use animus_queue_default.Rpc.{RpcRequest, RpcResponse}
use animus_queue_default.External.{World}
use animus_queue_default.Plugin.Wire.{Process}
use animus_queue_default.Plugin.Base.{
  Session, perform, require_backend, parse_params, read_params, to_value_response, written_response,
  mutation_error_response, call_error_response, internal_error_response,
}
use animus_queue_default.Plugin.Plain.{
  read_list_params, internal_failed, lease_error_response, release_pending_error_response,
  handle_enqueue, handle_list, handle_lease, handle_stats, handle_next_deadline, handle_hold,
  handle_release, handle_release_pending, handle_drop, handle_reorder, handle_mark_assigned,
  handle_completion,
}
use animus_queue_default.Plugin.Tickets.{
  handle_v2, handle_enqueue_v2, handle_lease_v2, handle_renew, handle_recover, handle_completion_v2,
  handle_release_pending_v2,
}
use animus_queue_default.Plugin.Initialize.{
  handle_initialize, present, read_init, initialized_response,
}
use animus_queue_default.Plugin.Requests.{
  QueueMethod, enqueue, list, lease, stats, next_deadline, hold, release, release_pending, drop,
  reorder, mark_assigned, completion, enqueue_v2, lease_v2, lease_renew, lease_recover,
  completion_v2, release_pending_v2, queue_reply, queue, Arm, initialize, initialized, ping,
  health_check, shutdown, exit, notification, unknown, arm_of, handle_arm, handle_request,
  health_response, Outcome, responds, silent, exits,
}

-- The checks and the calls of a handler answer with the id of its request.
module _ (p : Process) (w : World) where
  queue_reply-id :
      (method : QueueMethod) (id params : Option Value) (s : Session)
      → (queue_reply p w method id params s).1.id ≡ id
  unfolding queue_reply handle_enqueue handle_list handle_lease handle_stats handle_next_deadline
      handle_hold handle_release handle_release_pending handle_drop handle_reorder
      handle_mark_assigned handle_completion handle_v2 handle_enqueue_v2 handle_lease_v2
      handle_renew handle_recover handle_completion_v2 handle_release_pending_v2 read_list_params
      require_backend parse_params read_params perform to_value_response written_response
      mutation_error_response call_error_response internal_error_response internal_failed
      lease_error_response release_pending_error_response
  queue_reply-id enqueue id params s = ground arith
  queue_reply-id list id params s = ground arith
  queue_reply-id lease id params s = ground arith
  queue_reply-id stats id params s = ground arith
  queue_reply-id next_deadline id params s = ground arith
  queue_reply-id hold id params s = ground arith
  queue_reply-id release id params s = ground arith
  queue_reply-id release_pending id params s = ground arith
  queue_reply-id drop id params s = ground arith
  queue_reply-id reorder id params s = ground arith
  queue_reply-id mark_assigned id params s = ground arith
  queue_reply-id completion id params s = ground arith
  queue_reply-id enqueue_v2 id params s = ground arith
  queue_reply-id lease_v2 id params s = ground arith
  queue_reply-id lease_renew id params s = ground arith
  queue_reply-id lease_recover id params s = ground arith
  queue_reply-id completion_v2 id params s = ground arith
  queue_reply-id release_pending_v2 id params s = ground arith

  initialize-id :
      (id params : Option Value) (s : Session) → (handle_initialize p id params s).1.id ≡ id
  unfolding handle_initialize present read_init initialized_response internal_error_response
  initialize-id id none s = refl
  initialize-id id (some value) s = ground arith

  -- `outcome` is a response to this request.
  abbrev pub IsAnswer : RpcRequest → Outcome → Type 0
  IsAnswer request outcome =
      (response : RpcResponse) × (outcome ≡ responds response) × (response.id ≡ request.id)

  -- What a request of an arm comes to: no response for a notification, the end of the process for
  -- `exit`, and a response for all else.
  abbrev pub Answers : Arm → RpcRequest → Outcome → Type 0
  Answers initialized request outcome = outcome ≡ silent
  Answers notification request outcome = outcome ≡ silent
  Answers exit request outcome = outcome ≡ exits
  Answers initialize request outcome = IsAnswer request outcome
  Answers ping request outcome = IsAnswer request outcome
  Answers health_check request outcome = IsAnswer request outcome
  Answers shutdown request outcome = IsAnswer request outcome
  Answers unknown request outcome = IsAnswer request outcome
  Answers (queue method) request outcome = IsAnswer request outcome

  health_response-id :
      (id : Option Value) (healthy : Result String Value) → (health_response id healthy).id ≡ id
  unfolding health_response internal_error_response
  health_response-id id (ok value) = refl
  health_response-id id (err text) = refl

  arm-answers :
      (arm : Arm) (request : RpcRequest) (s : Session)
      → Answers arm request (handle_arm p w arm request s).1
  unfolding handle_arm
  arm-answers initialize request s = (_, refl, initialize-id request.id request.params s)
  arm-answers initialized request s = refl
  arm-answers ping request s = (_, refl, refl)
  arm-answers health_check request s = (_, refl, health_response-id request.id p.wire.healthy)
  arm-answers shutdown request s = (_, refl, refl)
  arm-answers exit request s = refl
  arm-answers notification request s = refl
  arm-answers unknown request s = (_, refl, refl)
  arm-answers (queue method) request s =
      (_, refl, queue_reply-id method request.id request.params s)

  -- Whatever the session, the params and what fails: a request is answered with one response, which
  -- has its id, but for `exit`, which ends the process, and `initialized` and the other
  -- notifications, which get no response.
  pub handle_request-answers :
      (request : RpcRequest) (s : Session)
      → Answers (arm_of request.method) request (handle_request p w request s).1
  unfolding handle_request
  handle_request-answers request s = arm-answers (arm_of request.method) request s
