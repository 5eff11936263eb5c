-- ===== src/State.antt =====
-- The shapes of src/dispatch_queue_state.rs: an entry, its audit rows and the state of the queue.
-- The functions on them are in State/Entry.antt.
pub mod Entry
pub mod Written
use animus_queue_default.Common.{ℕ, String, Bool, true, false, Option, none, List, []}
use animus_queue_default.Protocol.{SubjectDispatch, RepositoryReservation}

-- The version that is written to `queue.json`.
abbrev pub queue_format_version : ℕ
queue_format_version = 2

pub data DispatchQueueEntryStatus : Type 0 where
  pending assigned held unknown : DispatchQueueEntryStatus

unfoldable pub as_wire : DispatchQueueEntryStatus → String
as_wire pending = "pending"
as_wire assigned = "assigned"
as_wire held = "held"
as_wire unknown = "unknown"

pub record IdempotencyBinding : Type 0 where
  pub key : String
  pub request_hash : String

pub record DispatchQueueAuditEntry : Type 0 where
  pub at : String
  pub method : String
  pub from_status : String
  pub to_status : String
  pub reason : String

pub record DispatchQueueEntry : Type 0 where
  pub entry_id : String
  pub subject_id : Option String
  pub task_id : String
  pub dispatch : Option SubjectDispatch
  pub status : DispatchQueueEntryStatus
  pub workflow_id : Option String
  pub enqueued_at : Option String
  pub assigned_at : Option String
  pub held_at : Option String
  pub run_at : Option String
  pub expire_after_secs : Option ℕ
  pub audit_log : List DispatchQueueAuditEntry
  pub subject_generation : Option ℕ
  pub workflow_generation : Option ℕ
  pub lease_owner : Option String
  pub lease_generation : ℕ
  pub lease_expires_at : Option ℕ
  pub repository : Option RepositoryReservation
  pub idempotency_key : Option String
  pub request_hash : Option String
  pub extra_idempotency_keys : List IdempotencyBinding

-- `DispatchQueueEntry::default()`.
abbrev pub default_entry : DispatchQueueEntry
default_entry = record {
  entry_id = "";
  subject_id = none;
  task_id = "";
  dispatch = none;
  status = pending;
  workflow_id = none;
  enqueued_at = none;
  assigned_at = none;
  held_at = none;
  run_at = none;
  expire_after_secs = none;
  audit_log = [];
  subject_generation = none;
  workflow_generation = none;
  lease_owner = none;
  lease_generation = 0;
  lease_expires_at = none;
  repository = none;
  idempotency_key = none;
  request_hash = none;
  extra_idempotency_keys = [];
}

-- `subject_generations` is a map by subject; a key stands in it once.
pub record DispatchQueueState : Type 0 where
  pub format_version : ℕ
  pub subject_generations : List (String × ℕ)
  pub entries : List DispatchQueueEntry

-- `DispatchQueueState::default()`.
abbrev pub default_state : DispatchQueueState
default_state = record { format_version = 0; subject_generations = []; entries = [] }

abbrev pub status_eq : DispatchQueueEntryStatus → DispatchQueueEntryStatus → Bool
status_eq pending pending = true
status_eq assigned assigned = true
status_eq held held = true
status_eq unknown unknown = true
status_eq _ _ = false
