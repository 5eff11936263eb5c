-- ===== src/Plugin/Initialize.antt =====
-- `initialize` of src/plugin.rs, and what the plugin says of itself.
use animus_queue_default.Common.{
  String, true, false, Option, none, some, List, [], ◌∷◌, Result, ok, err, and_then, map_err, ◌<>◌,
}
use animus_queue_default.Json.{Value, null, lookup, get, as_str}
use animus_queue_default.Rpc.{
  RpcError, RpcResponse, respond, respond_error, project_binding_mismatch,
}
use animus_queue_default.HostGuard.{check_host}
use animus_queue_default.LeaseTtl.{parse_lease_ttl}
use animus_queue_default.Service.Base.{QueueBackend}
use animus_queue_default.Fenced.Lease.{max_lease_batch}
use animus_queue_default.Plugin.Wire.{
  Process, InitializeParams, InitializeResult, QueueCapabilities,
}
use animus_queue_default.Plugin.Base.{
  Reply, Check, ◌>>=◌, error_of, invalid_params_error, internal_error_response, plugin_name,
}

abbrev pub plugin_description : String
plugin_description =
    "Reference queue plugin for Animus 0.7 (file-backed dispatch queue with generation-fenced leases)."

-- The names that the constants `METHOD_QUEUE_*` of `animus_queue_protocol` stand for.
abbrev pub queue_methods : List String
queue_methods =
    "queue/enqueue" ∷ "queue/list" ∷ "queue/lease" ∷ "queue/stats" ∷ "queue/next_deadline"
    ∷ "queue/hold" ∷ "queue/release" ∷ "queue/release_pending" ∷ "queue/drop" ∷ "queue/reorder"
    ∷ "queue/mark_assigned" ∷ "queue/completion" ∷ "queue/v2/enqueue" ∷ "queue/v2/lease"
    ∷ "queue/v2/lease/renew" ∷ "queue/v2/lease/recover" ∷ "queue/v2/completion"
    ∷ "queue/v2/release_pending" ∷ "health/check" ∷ []

binding_error : String → RpcError
binding_error message = error_of project_binding_mismatch message

root_of : Option Value → Result RpcError String
unfolding binding_error
root_of none =
    err (binding_error "init_extensions.project_binding is required to bind a project root")
root_of (some binding) = elim (and_then (get binding "project_root") as_str) [
  | some root ↦ ok root
  | none ↦ err (binding_error "init_extensions.project_binding.project_root must be a string")
]

unfoldable pub extract_project_root : InitializeParams → Result RpcError String
unfolding root_of lookup
extract_project_root init = root_of (lookup "project_binding" init.init_extensions)

-- `Err(error) => return RpcResponse::err(id, error)`.
abbrev refuse : {A : Type 0} → Option Value → Result RpcError A → Check A
refuse id result s = map_err (respond_error id) result

unfoldable pub present : Option Value → Result RpcError Value
unfolding invalid_params_error
present none = err (invalid_params_error "missing params for initialize")
present (some params) = ok params

unfoldable pub read_init : Result String InitializeParams → Result RpcError InitializeParams
unfolding invalid_params_error
read_init (ok init) = ok init
read_init (err text) = err (invalid_params_error ("invalid initialize params: " <> text))

abbrev pub capabilities : QueueCapabilities
capabilities = record {
  priority_weighted = false;
  max_lease_batch = max_lease_batch;
  generation_fenced_leases_v1 = true;
}

ok_or : {E A : Type 0} → A → Result E A → A
ok_or default (ok a) = a
ok_or default (err e) = default

module _ (p : Process) where
  unfoldable pub initialize_result : InitializeResult
  unfolding ok_or
  initialize_result = record {
    protocol_version = p.wire.protocol_version;
    name = plugin_name;
    version = p.package_version;
    plugin_kind = p.wire.plugin_kind_queue;
    description = some plugin_description;
    methods = queue_methods;
    kind = p.wire.kind;
    crate_version = p.wire.queue_protocol_version;
    extra = ok_or null (p.wire.write_capabilities capabilities);
  }

  unfoldable pub initialized_response : Option Value → Result String Value → RpcResponse
  unfolding internal_error_response
  initialized_response id (ok value) = respond id value
  initialized_response id (err text) =
      internal_error_response id ("failed to encode initialize result: " <> text)

  -- `QueueBackend::new(project_root).with_lease_ttl(lease_ttl_from_env())`.
  unfoldable pub new_backend : String → QueueBackend
  unfolding parse_lease_ttl
  new_backend root = record {
    project_root = root;
    lease_ttl_secs = parse_lease_ttl p.lease_ttl_env;
  }

  unfoldable pub host_version : Value → Option String
  unfolding lookup
  host_version params =
      and_then (and_then (get params "host_info") (λ info. get info "version")) as_str

  -- The host is checked before the params are read.
  unfoldable pub handle_initialize : Option Value → Option Value → Reply
  unfolding present read_init initialize_result initialized_response new_backend
  handle_initialize id params = do
    value ← refuse id (present params)
    accepted ← refuse id (
        check_host p.semver p.package_version (and_then (get value "protocol_version") as_str)
          (host_version value))
    init ← refuse id (read_init (p.wire.read_initialize value))
    root ← refuse id (extract_project_root init)
    λ s. (
      record s { backend = some (new_backend root) },
      initialized_response id (p.wire.write_initialize initialize_result),
    )
