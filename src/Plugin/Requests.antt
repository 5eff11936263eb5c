-- ===== src/Plugin/Requests.antt =====
-- The dispatch of requests of src/plugin.rs, the manifest and the command line.
use text.Mathlib.Text.{starts_with}
use animus_queue_default.Common.{
  String, ◌||◌, Option, List, [], ◌∷◌, Result, ok, err, ◌==◌, if◌then◌else◌, ◌<>◌,
}
use animus_queue_default.Json.{Value, object, end}
use animus_queue_default.Rpc.{RpcRequest, RpcResponse, respond, respond_error, method_not_found}
use animus_queue_default.External.{World}
use animus_queue_default.Plugin.Wire.{Process}
use animus_queue_default.Plugin.Base.{
  Session, Reply, error_of, internal_error_response, plugin_name,
}
use animus_queue_default.Plugin.Plain.{
  handle_enqueue, handle_list, handle_lease, handle_stats, handle_next_deadline, handle_hold,
  handle_release, handle_release_pending, handle_drop, handle_reorder, handle_mark_assigned,
  handle_completion,
}
use animus_queue_default.Plugin.Tickets.{
  handle_enqueue_v2, handle_lease_v2, handle_renew, handle_recover, handle_completion_v2,
  handle_release_pending_v2,
}
use animus_queue_default.Plugin.Initialize.{handle_initialize, plugin_description, queue_methods}

-- The methods of the queue, which run on the backend.
pub data QueueMethod : Type 0 where
  enqueue list lease stats next_deadline hold release release_pending drop reorder : QueueMethod
  mark_assigned completion enqueue_v2 lease_v2 lease_renew lease_recover completion_v2 : QueueMethod
  release_pending_v2 : QueueMethod

-- The arms of the match on `request.method`.
pub data Arm : Type 0 where
  initialize initialized ping health_check shutdown exit notification unknown : Arm
  queue : QueueMethod → Arm

-- The arms of the methods of the queue, by the names that the constants stand for.
abbrev pub queue_arms : List (String × QueueMethod)
queue_arms =
    ("queue/enqueue", enqueue)
    ∷ ("queue/list", list)
    ∷ ("queue/lease", lease)
    ∷ ("queue/stats", stats)
    ∷ ("queue/next_deadline", next_deadline)
    ∷ ("queue/hold", hold)
    ∷ ("queue/release", release)
    ∷ ("queue/release_pending", release_pending)
    ∷ ("queue/drop", drop)
    ∷ ("queue/reorder", reorder)
    ∷ ("queue/mark_assigned", mark_assigned)
    ∷ ("queue/completion", completion)
    ∷ ("queue/v2/enqueue", enqueue_v2)
    ∷ ("queue/v2/lease", lease_v2)
    ∷ ("queue/v2/lease/renew", lease_renew)
    ∷ ("queue/v2/lease/recover", lease_recover)
    ∷ ("queue/v2/completion", completion_v2)
    ∷ ("queue/v2/release_pending", release_pending_v2)
    ∷ []

-- The first arm of that name.
unfoldable pub queue_arm : String → List (String × QueueMethod) → Arm
queue_arm method [] = unknown
queue_arm method ((name, arm) ∷ arms) =
    let rest = queue_arm method arms in if method == name then queue arm else rest

unfoldable pub arm_of : String → Arm
arm_of method =
    if method == "initialize"
    then initialize
    else if method == "initialized"
    then initialized
    else if method == "$/ping"
    then ping
    else if method == "health/check"
    then health_check
    else if method == "shutdown"
    then shutdown
    else if method == "exit"
    then exit
    else if starts_with method "$/"
    then notification
    else queue_arm method queue_arms

-- What a request comes to: a response, none, or the end of the process.
pub data Outcome : Type 0 where
  responds : RpcResponse → Outcome
  silent exits : Outcome

abbrev answered : Session × RpcResponse → Session × Outcome
answered (s, response) = (s, responds response)

unfoldable pub health_response : Option Value → Result String Value → RpcResponse
unfolding internal_error_response
health_response id (ok value) = respond id value
health_response id (err text) =
    internal_error_response id ("failed to encode health result: " <> text)

module _ (p : Process) (w : World) where
  unfoldable pub queue_reply : QueueMethod → Option Value → Option Value → Reply
  queue_reply enqueue id params = handle_enqueue p w id params
  queue_reply list id params = handle_list p w id params
  queue_reply lease id params = handle_lease p w id params
  queue_reply stats id params = handle_stats p w id params
  queue_reply next_deadline id params = handle_next_deadline p w id params
  queue_reply hold id params = handle_hold p w id params
  queue_reply release id params = handle_release p w id params
  queue_reply release_pending id params = handle_release_pending p w id params
  queue_reply drop id params = handle_drop p w id params
  queue_reply reorder id params = handle_reorder p w id params
  queue_reply mark_assigned id params = handle_mark_assigned p w id params
  queue_reply completion id params = handle_completion p w id params
  queue_reply enqueue_v2 id params = handle_enqueue_v2 p w id params
  queue_reply lease_v2 id params = handle_lease_v2 p w id params
  queue_reply lease_renew id params = handle_renew p w id params
  queue_reply lease_recover id params = handle_recover p w id params
  queue_reply completion_v2 id params = handle_completion_v2 p w id params
  queue_reply release_pending_v2 id params = handle_release_pending_v2 p w id params

  unfoldable pub handle_arm : Arm → RpcRequest → Session → Session × Outcome
  unfolding queue_reply handle_initialize health_response
  handle_arm initialize request s = answered (handle_initialize p request.id request.params s)
  handle_arm initialized request s = (s, silent)
  handle_arm ping request s = (s, responds (respond request.id (object end)))
  handle_arm health_check request s = (s, responds (health_response request.id p.wire.healthy))
  handle_arm shutdown request s = (s, responds (respond request.id (object end)))
  handle_arm exit request s = (s, exits)
  handle_arm notification request s = (s, silent)
  handle_arm (queue method) request s = answered (queue_reply method request.id request.params s)
  handle_arm unknown request s = (
    s,
    responds (
        respond_error request.id (
          error_of method_not_found
            ("method '" <> request.method <> "' not implemented by " <> plugin_name))),
  )

  unfoldable pub handle_request : RpcRequest → Session → Session × Outcome
  unfolding handle_arm arm_of
  handle_request request s = handle_arm (arm_of request.method) request s

abbrev pub continued : Session → Outcome → Session × List RpcResponse → Session × List RpcResponse
continued s (responds response) (later, responses) = (later, response ∷ responses)
continued s silent rest = rest
continued s exits rest = (s, [])

-- The loop's requests, each with what its call meets, in the order in which their tasks run: the
-- session at the end, and the responses. `exit` ends the process.
unfoldable pub serve : Process → List (World × RpcRequest) → Session → Session × List RpcResponse
unfolding handle_request
serve p [] s = (s, [])
serve p ((w, request) ∷ requests) s =
    let (after, outcome) = handle_request p w request s in
    let rest = serve p requests after in continued after outcome rest

-- What the manifest says beside what is the same for each plugin of this kind.
pub record PluginManifest : Type 0 where
  pub name : String
  pub version : String
  pub plugin_kind : String
  pub description : String
  pub protocol_version : String
  pub capabilities : List String
  pub env_required : List String

unfoldable pub manifest : Process → PluginManifest
manifest p = record {
  name = plugin_name;
  version = p.package_version;
  plugin_kind = p.wire.plugin_kind_queue;
  description = plugin_description;
  protocol_version = p.wire.protocol_version;
  capabilities = queue_methods;
  env_required = "ANIMUS_QUEUE_LEASE_TTL_SECS" ∷ [];
}

-- What the arguments of the command line ask for, if not for the loop.
pub data CliAction : Type 0 where
  prints_manifest prints_help runs_loop : CliAction

unfoldable pub handle_cli_args : List String → CliAction
handle_cli_args [] = runs_loop
handle_cli_args (arg ∷ args) =
    let rest = handle_cli_args args in
    if arg == "--manifest" || arg == "-m"
    then prints_manifest
    else if arg == "--help" || arg == "-h"
    then prints_help
    else rest
