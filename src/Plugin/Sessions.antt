-- ===== src/Plugin/Sessions.antt =====
-- What each request does, and what the requests of a session do: the handlers of src/plugin.rs
-- against the meaning of the requests.
use animus_queue_default.Common.{
  ◌≡◌, refl, if◌then◌else◌, Option, none, some, List, [], ◌∷◌, arith, and_then,
}
use animus_queue_default.Json.{Value}
use animus_queue_default.Rpc.{RpcRequest, RpcResponse}
use animus_queue_default.External.{World}
use animus_queue_default.Calls.{after_call}
use animus_queue_default.Plugin.Wire.{Process}
use animus_queue_default.Plugin.Base.{Session, perform, require_backend, parse_params, read_params}
use animus_queue_default.Plugin.Plain.{
  read_list_params, handle_enqueue, handle_list, handle_lease, handle_stats, handle_next_deadline,
  handle_hold, handle_release, handle_release_pending, handle_drop, handle_reorder,
  handle_mark_assigned, handle_completion,
}
use animus_queue_default.Plugin.Tickets.{
  handle_v2, handle_enqueue_v2, handle_lease_v2, handle_renew, handle_recover, handle_completion_v2,
  handle_release_pending_v2,
}
use animus_queue_default.Plugin.Initialize.{handle_initialize, present, read_init}
use animus_queue_default.Plugin.Requests.{
  QueueMethod, enqueue, list, lease, stats, next_deadline, hold, release, release_pending, drop,
  reorder, mark_assigned, completion, enqueue_v2, lease_v2, lease_renew, lease_recover,
  completion_v2, release_pending_v2, queue_reply, Arm, queue, initialize, initialized, ping,
  health_check, shutdown, exit, notification, unknown, handle_arm, handle_request,
}
use animus_queue_default.Plugin.Requests.{continued, serve, arm_of}
use animus_queue_default.Plugin.Meaning.{
  meaning, meaning_of, is_exit, all_realised, bound_by, binds_or_nothing, realised, call_of,
  calls_or_nothing,
}

module _ (p : Process) (w : World) where
  -- A method of the queue makes the call that its params ask for, on the bound backend's disk.
  queue_reply-realised :
      (method : QueueMethod) (id params : Option Value) (s : Session)
      → (queue_reply p w method id params s).0
        ≡ realised p w (calls_or_nothing (call_of p.wire method params)) s
  unfolding queue_reply handle_enqueue handle_list handle_lease handle_stats handle_next_deadline
      handle_hold handle_release handle_release_pending handle_drop handle_reorder
      handle_mark_assigned handle_completion handle_v2 handle_enqueue_v2 handle_lease_v2
      handle_renew handle_recover handle_completion_v2 handle_release_pending_v2 read_list_params
      require_backend parse_params read_params perform after_call
  queue_reply-realised enqueue id params s = ground arith
  queue_reply-realised list id params s = ground arith
  queue_reply-realised lease id params s = ground arith
  queue_reply-realised stats id params s = ground arith
  queue_reply-realised next_deadline id params s = ground arith
  queue_reply-realised hold id params s = ground arith
  queue_reply-realised release id params s = ground arith
  queue_reply-realised release_pending id params s = ground arith
  queue_reply-realised drop id params s = ground arith
  queue_reply-realised reorder id params s = ground arith
  queue_reply-realised mark_assigned id params s = ground arith
  queue_reply-realised completion id params s = ground arith
  queue_reply-realised enqueue_v2 id params s = ground arith
  queue_reply-realised lease_v2 id params s = ground arith
  queue_reply-realised lease_renew id params s = ground arith
  queue_reply-realised lease_recover id params s = ground arith
  queue_reply-realised completion_v2 id params s = ground arith
  queue_reply-realised release_pending_v2 id params s = ground arith

  initialize-realised :
      (id params : Option Value) (s : Session)
      → (handle_initialize p id params s).0
        ≡ realised p w (binds_or_nothing (and_then params (bound_by p))) s
  unfolding handle_initialize present read_init
  initialize-realised id none s = refl
  initialize-realised id (some value) s = ground arith

  arm-realised :
      (arm : Arm) (request : RpcRequest) (s : Session)
      → (handle_arm p w arm request s).0 ≡ realised p w (meaning_of p arm request.params) s
  unfolding handle_arm
  arm-realised initialize request s = initialize-realised request.id request.params s
  arm-realised (queue method) request s = queue_reply-realised method request.id request.params s
  arm-realised initialized request s = refl
  arm-realised ping request s = refl
  arm-realised health_check request s = refl
  arm-realised shutdown request s = refl
  arm-realised exit request s = refl
  arm-realised notification request s = refl
  arm-realised unknown request s = refl

  request-realised :
      (request : RpcRequest) (s : Session)
      → (handle_request p w request s).0 ≡ realised p w (meaning p request) s
  unfolding handle_request
  request-realised request s = arm-realised (arm_of request.method) request s

  -- A request ends the process just if its method is `exit`.
  arm-exits :
      (arm : Arm) (request : RpcRequest) (s : Session) (rest : Session × List RpcResponse)
      → (continued (handle_arm p w arm request s).0 (handle_arm p w arm request s).1 rest).0
        ≡ (if is_exit p arm then (handle_arm p w arm request s).0 else rest.0)
  unfolding handle_arm
  arm-exits initialize request s rest = refl
  arm-exits (queue method) request s rest = refl
  arm-exits initialized request s rest = refl
  arm-exits ping request s rest = refl
  arm-exits health_check request s rest = refl
  arm-exits shutdown request s rest = refl
  arm-exits exit request s rest = refl
  arm-exits notification request s rest = refl
  arm-exits unknown request s rest = refl

-- Whatever requests arrive, with whatever params, and whatever fails: the session at the end is the
-- one that their meanings make, up to an `exit`. A queue method makes the call that its params ask
-- for on the disk of the project that was bound last, `initialize` binds a project if the host is
-- accepted, and nothing else changes the session.
pub serve-realised :
    (p : Process) (requests : List (World × RpcRequest)) (s : Session)
    → (serve p requests s).0 ≡ all_realised p requests s
unfolding serve handle_request
serve-realised p [] s = refl
serve-realised p ((w, request) ∷ requests) s = ground (
  arith,
  arm-exits p w (arm_of request.method) request s
      (serve p requests (handle_request p w request s).0),
  request-realised p w request s,
  serve-realised p requests (realised p w (meaning p request) s),
)
