-- ===== src/Plugin/Binding.antt =====
-- When src/plugin.rs binds a project, and what it answers before it has bound one.
use animus_queue_default.Common.{
  Bool, true, false, All, List, [], ◌∷◌, ◌∙◌, ◌≡◌, refl, ◌≤◌, Option, none, some, ok, arith, Result,
  and_then, ◌<>◌, Result-cases, inl, inr,
}
use animus_queue_default.Json.{Value, get, as_str}
use animus_queue_default.Rpc.{RpcRequest, RpcError, respond_error, plugin_not_initialized}
use animus_queue_default.External.{World}
use animus_queue_default.HostGuard.{check_host}
use animus_queue_default.LeaseTtl.{max_lease_ttl_secs, parse_lease_ttl-bounds}
use animus_queue_default.Service.Base.{QueueBackend}
use animus_queue_default.Plugin.Wire.{Process, InitializeParams}
use animus_queue_default.Plugin.Base.{Session, require_backend, error_of, plugin_name}
use animus_queue_default.Plugin.Requests.{serve}
use animus_queue_default.Plugin.Sessions.{serve-realised}
use animus_queue_default.Plugin.Meaning.{
  Meaning, nothing, calls, binds, meaning, realised, all_realised,
}
use animus_queue_default.Plugin.Plain.{
  handle_enqueue, handle_list, handle_lease, handle_stats, handle_next_deadline, handle_hold,
  handle_release, handle_release_pending, handle_drop, handle_reorder, handle_mark_assigned,
  handle_completion,
}
use animus_queue_default.Plugin.Tickets.{
  handle_v2, handle_enqueue_v2, handle_lease_v2, handle_renew, handle_recover, handle_completion_v2,
  handle_release_pending_v2,
}
use animus_queue_default.Plugin.Initialize.{
  handle_initialize, host_version, present, read_init, extract_project_root, new_backend,
}
use animus_queue_default.Plugin.Requests.{
  QueueMethod, enqueue, list, lease, stats, next_deadline, hold, release, release_pending, drop,
  reorder, mark_assigned, completion, enqueue_v2, lease_v2, lease_renew, lease_recover,
  completion_v2, release_pending_v2, queue_reply, queue, arm_of, handle_arm, handle_request,
  responds,
}

abbrev pub not_initialized : RpcError
not_initialized =
    error_of plugin_not_initialized (plugin_name <> " received a queue/* method before initialize")

-- What the host says of itself in the params of `initialize`.
abbrev pub host_check : Process → Value → Result RpcError (Unit {0})
host_check p params =
    check_host p.semver p.package_version (and_then (get params "protocol_version") as_str)
      (host_version p params)

module _ (p : Process) (w : World) where
  queue_reply-unbound :
      (method : QueueMethod) (id params : Option Value) (s : Session)
      → s.backend ≡ none
      → queue_reply p w method id params s ≡ (s, respond_error id not_initialized)
  unfolding queue_reply handle_enqueue handle_list handle_lease handle_stats handle_next_deadline
      handle_hold handle_release handle_release_pending handle_drop handle_reorder
      handle_mark_assigned handle_completion handle_v2 handle_enqueue_v2 handle_lease_v2
      handle_renew handle_recover handle_completion_v2 handle_release_pending_v2 require_backend
  queue_reply-unbound enqueue id params s e = rw e refl
  queue_reply-unbound list id params s e = rw e refl
  queue_reply-unbound lease id params s e = rw e refl
  queue_reply-unbound stats id params s e = rw e refl
  queue_reply-unbound next_deadline id params s e = rw e refl
  queue_reply-unbound hold id params s e = rw e refl
  queue_reply-unbound release id params s e = rw e refl
  queue_reply-unbound release_pending id params s e = rw e refl
  queue_reply-unbound drop id params s e = rw e refl
  queue_reply-unbound reorder id params s e = rw e refl
  queue_reply-unbound mark_assigned id params s e = rw e refl
  queue_reply-unbound completion id params s e = rw e refl
  queue_reply-unbound enqueue_v2 id params s e = rw e refl
  queue_reply-unbound lease_v2 id params s e = rw e refl
  queue_reply-unbound lease_renew id params s e = rw e refl
  queue_reply-unbound lease_recover id params s e = rw e refl
  queue_reply-unbound completion_v2 id params s e = rw e refl
  queue_reply-unbound release_pending_v2 id params s e = rw e refl

  -- Before a project is bound, a request of any method of the queue, whatever its params, is
  -- answered with PLUGIN_NOT_INITIALIZED and changes nothing.
  pub handle_request-unbound :
      (request : RpcRequest) (s : Session) (method : QueueMethod)
      → s.backend ≡ none
      → arm_of request.method ≡ queue method
      → handle_request p w request s ≡ (s, responds (respond_error request.id not_initialized))
  unfolding handle_request handle_arm
  handle_request-unbound request s method unbound e =
      ground (arith, e, queue_reply-unbound method request.id request.params s unbound)

module _ (p : Process) where
  -- What `initialize` binds, when it binds a project where none was bound.
  binds_from :
      (id : Option Value) (params : Value) (s : Session) (b : QueueBackend)
      → s.backend ≡ none
      → (handle_initialize p id (some params) s).0.backend ≡ some b
      → (host_check p params ≡ ok tt)
        × ((init : InitializeParams) × (p.wire.read_initialize params ≡ ok init)
            × (extract_project_root init ≡ ok b.project_root))
        × (b ≡ new_backend p b.project_root)
  unfolding handle_initialize present read_init new_backend
  binds_from id params s b unbound bound = elim (Result-cases (host_check p params)) [
    | inl (_, accepted) ↦ elim (Result-cases (p.wire.read_initialize params)) [
      | inl (init, reads) ↦ elim (Result-cases (extract_project_root init)) [
        | inl (root, named) ↦ (accepted, (init, reads, ground (arith, named)), ground arith)
        | inr (error, named) ↦ ground arith
      ]
      | inr (text, reads) ↦ ground arith
    ]
    | inr (error, refused) ↦ ground arith
  ]

  -- If `initialize` binds a project where none was bound, then the host is accepted, the project
  -- root is the one that the params name, and leases last from one second to seven days.
  pub handle_initialize-binds :
      (id : Option Value) (params : Value) (s : Session) (b : QueueBackend)
      → s.backend ≡ none
      → (handle_initialize p id (some params) s).0.backend ≡ some b
      → (host_check p params ≡ ok tt)
        × ((init : InitializeParams) × (p.wire.read_initialize params ≡ ok init)
            × (extract_project_root init ≡ ok b.project_root))
        × (1 ≤ b.lease_ttl_secs)
        × (b.lease_ttl_secs ≤ max_lease_ttl_secs)
  unfolding new_backend
  handle_initialize-binds id params s b unbound bound =
      let (accepted, named, made) = binds_from id params s b unbound bound in
      let bounds = parse_lease_ttl-bounds p.lease_ttl_env in
      (accepted, named, ground (arith, made, bounds), ground (arith, made, bounds))

  -- The request binds a project: it is an `initialize` of a host that is accepted, with params that
  -- are read and name a project root.
  abbrev pub is_binding : RpcRequest → Bool
  is_binding request = elim (meaning p request) [ binds b ↦ true | _ ↦ false ]

  unbound-realised :
      (w : World) (m : Meaning) (s : Session)
      → s.backend ≡ none
      → elim m [ binds b ↦ true | _ ↦ false ] ≡ false
      → realised p w m s ≡ s
  unbound-realised w nothing s u e = refl
  unbound-realised w (calls call) s u e = rw u refl
  unbound-realised w (binds b) s u e = cc

  unbound-All :
      (requests : List (World × RpcRequest)) (s : Session)
      → s.backend ≡ none
      → All (λ (request : World × RpcRequest). is_binding request.1 ≡ false) requests
      → all_realised p requests s ≡ s
  unbound-All [] s u h = refl
  unbound-All ((w, request) ∷ requests) s u h =
      ground (arith, unbound-realised w (meaning p request) s u h.0, unbound-All requests s u h.1)

  -- Until a request binds a project, no request changes the session or any disk.
  pub serve-unbound :
      (requests : List (World × RpcRequest)) (s : Session)
      → s.backend ≡ none
      → All (λ (request : World × RpcRequest). is_binding request.1 ≡ false) requests
      → (serve p requests s).0 ≡ s
  serve-unbound requests s u h = serve-realised p requests s ∙ unbound-All requests s u h
