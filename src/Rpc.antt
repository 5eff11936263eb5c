-- ===== src/Rpc.antt =====
-- The JSON-RPC types of the crate `animus_plugin_protocol`, which src/plugin.rs and
-- src/host_guard.rs build.
use animus_queue_default.Common.{String, Option, Result, ok, err}
use animus_queue_default.Json.{Value}

-- The codes of `animus_plugin_protocol` and of `animus_queue_protocol` that the plugin answers with.
pub data RpcCode : Type 0 where
  invalid_params internal_error method_not_found plugin_not_initialized : RpcCode
  project_binding_mismatch queue_lease_workflow_id_count_mismatch queue_entry_not_pending : RpcCode
  queue_stale_fence queue_entry_not_assigned queue_reorder_failed : RpcCode

pub record RpcError : Type 0 where
  pub code : RpcCode
  pub message : String
  pub data_value : Option Value

pub record RpcRequest : Type 0 where
  pub id : Option Value
  pub method : String
  pub params : Option Value

pub record RpcResponse : Type 0 where
  pub id : Option Value
  pub outcome : Result RpcError Value

-- `RpcResponse::ok` and `RpcResponse::err`.
abbrev pub respond : Option Value → Value → RpcResponse
respond id value = record { id = id; outcome = ok value }

abbrev pub respond_error : Option Value → RpcError → RpcResponse
respond_error id error = record { id = id; outcome = err error }
