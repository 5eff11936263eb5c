-- ===== src/Plugin/Wire.antt =====
-- What src/plugin.rs takes from `serde_json` and the protocol crates: requests, responses and how
-- they are read and written.
use animus_queue_default.Common.{ℕ, String, Bool, Option, List, Result}
use animus_queue_default.Json.{Value, Fields}
use animus_queue_default.Protocol.{
  QueueEntry, QueueStats, QueueMutationResponse, QueueEnqueueV2Request, QueueEnqueueV2Response,
  QueueLeaseV2Request, QueueLeaseV2Response, QueueLeaseRenewRequest, QueueLeaseRecoverRequest,
  QueueCompletionV2Request, QueueReleasePendingV2Request, QueueLeaseMutationResponse,
  SubjectDispatch,
}
use animus_queue_default.Io.{IoError}
use animus_queue_default.External.{External}
use animus_queue_default.HostGuard.{Semver}
use animus_queue_default.Service.Listing.{QueueListResponse}

pub record InitializeParams : Type 0 where
  pub init_extensions : Fields

pub record QueueEnqueueRequest : Type 0 where
  pub subject_dispatch : SubjectDispatch
  pub run_at : Option String
  pub expire_after_secs : Option ℕ

pub record QueueEnqueueResponse : Type 0 where
  pub enqueued : Bool
  pub entry_id : String
  pub subject_id : String
  pub warning : Option String

pub record QueueListRequest : Type 0 where
  pub status : List String
  pub limit : Option ℕ
  pub offset : Option ℕ

pub record QueueLeaseRequest : Type 0 where
  pub max : ℕ
  pub workflow_ids : Option (List String)
  pub exclude_subjects : Option (List String)

-- `QueueHoldRequest`, `QueueReleaseRequest` and `QueueDropRequest`.
pub record EntryRequest : Type 0 where
  pub entry_id : String

pub record QueueReleasePendingParams : Type 0 where
  pub entry_id : String
  pub reason : String

pub record QueueReorderRequest : Type 0 where
  pub entry_ids : List String

pub record QueueMarkAssignedRequest : Type 0 where
  pub entry_id : String
  pub workflow_id : Option String

pub record QueueCompletionRequest : Type 0 where
  pub entry_id : String
  pub status : String
  pub workflow_ref : Option String
  pub workflow_id : Option String

pub record QueueCapabilities : Type 0 where
  pub priority_weighted : Bool
  pub max_lease_batch : ℕ
  pub generation_fenced_leases_v1 : Bool

-- `InitializeResult`, with the fields that are not the same for each plugin of this kind.
pub record InitializeResult : Type 0 where
  pub protocol_version : String
  pub name : String
  pub version : String
  pub plugin_kind : String
  pub description : Option String
  pub methods : List String
  pub kind : String
  pub crate_version : String
  pub extra : Value

-- A reader gives the value or the error's text, and a writer as well.
abbrev pub Reads : Type 0 → Type 0
Reads A = Value → Result String A

abbrev pub Writes : Type 0 → Type 0
Writes A = A → Result String Value

pub record Wire : Type 0 where
  pub read_initialize : Reads InitializeParams
  pub read_enqueue : Reads QueueEnqueueRequest
  pub read_list : Reads QueueListRequest
  pub read_lease : Reads QueueLeaseRequest
  pub read_hold : Reads EntryRequest
  pub read_release : Reads EntryRequest
  pub read_release_pending : Reads QueueReleasePendingParams
  pub read_drop : Reads EntryRequest
  pub read_reorder : Reads QueueReorderRequest
  pub read_mark_assigned : Reads QueueMarkAssignedRequest
  pub read_completion : Reads QueueCompletionRequest
  pub read_enqueue_v2 : Reads QueueEnqueueV2Request
  pub read_lease_v2 : Reads QueueLeaseV2Request
  pub read_renew : Reads QueueLeaseRenewRequest
  pub read_recover : Reads QueueLeaseRecoverRequest
  pub read_completion_v2 : Reads QueueCompletionV2Request
  pub read_release_pending_v2 : Reads QueueReleasePendingV2Request
  pub write_initialize : Writes InitializeResult
  pub write_capabilities : Writes QueueCapabilities
  -- the result of a health check that finds the plugin healthy
  pub healthy : Result String Value
  pub write_enqueue : Writes QueueEnqueueResponse
  pub write_list : Writes QueueListResponse
  pub write_lease : Writes (List QueueEntry)
  pub write_stats : Writes QueueStats
  pub write_next_deadline : Writes (Option String)
  pub write_mutation : Writes QueueMutationResponse
  -- the id and the status of the entry
  pub write_release_pending : Writes (String × String)
  pub write_reorder : Writes ℕ
  pub write_enqueue_v2 : Writes QueueEnqueueV2Response
  pub write_lease_v2 : Writes QueueLeaseV2Response
  pub write_lease_mutation : Writes QueueLeaseMutationResponse
  -- `{error:#}` of an `anyhow::Error`
  pub error_text : IoError → String
  -- constants of the protocol crates
  pub protocol_version : String
  pub queue_protocol_version : String
  pub plugin_kind_queue : String
  pub kind : String

-- What the process stands on: the crates, its environment and its version. `place` is the directory
-- that a path of a project root leads to.
pub record Process : Type 1 where
  pub external : External
  pub semver : Semver
  pub wire : Wire
  pub lease_ttl_env : Option String
  pub package_version : String
  pub place : String → String
