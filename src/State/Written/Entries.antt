-- ===== src/State/Written/Entries.antt =====
-- The JSON of an entry and of the state, field by field, of src/dispatch_queue_state.rs.
use mathlib.Core.Option
use animus_queue_default.Common.{ℕ, String, Option, none, some, List, [], ◌∷◌, and_then}
use animus_queue_default.Json.{
  Value, Fields, string, array, object, end, field, lookup, as_str, optional_string,
}
use animus_queue_default.State.{DispatchQueueEntry, DispatchQueueState, pending}
use animus_queue_default.State.Written.{
  Codec, struct_fields, write_items, read_items, read_list, skip_empty, required, defaulted,
  optional, read_u64, read_u32, skip_zero, u64_value, read_status, status_value, binding_value,
  read_binding, audit_value, read_audit,
}

infixl 5 ◌>>=◌
abbrev ◌>>=◌ : {A B : Type 0} → Option A → (A → Option B) → Option B
◌>>=◌ = and_then

module _ (c : Codec) where
  abbrev pub entry_fields : DispatchQueueEntry → List (String × Option Value)
  entry_fields entry =
      ("entry_id", some (string entry.entry_id))
      ∷ ("subject_id", Option.map string entry.subject_id)
      ∷ ("task_id", some (string entry.task_id))
      ∷ ("dispatch", Option.map c.dispatch_value entry.dispatch)
      ∷ ("status", some (status_value entry.status))
      ∷ ("workflow_id", some (optional_string entry.workflow_id))
      ∷ ("enqueued_at", some (optional_string entry.enqueued_at))
      ∷ ("assigned_at", some (optional_string entry.assigned_at))
      ∷ ("held_at", some (optional_string entry.held_at))
      ∷ ("run_at", Option.map string entry.run_at)
      ∷ ("expire_after_secs", Option.map u64_value entry.expire_after_secs)
      ∷ ("audit_log", skip_empty audit_value entry.audit_log)
      ∷ ("subject_generation", Option.map u64_value entry.subject_generation)
      ∷ ("workflow_generation", Option.map u64_value entry.workflow_generation)
      ∷ ("lease_owner", Option.map string entry.lease_owner)
      ∷ ("lease_generation", skip_zero entry.lease_generation)
      ∷ ("lease_expires_at", Option.map c.time_value entry.lease_expires_at)
      ∷ ("repository", Option.map c.reservation_value entry.repository)
      ∷ ("idempotency_key", Option.map string entry.idempotency_key)
      ∷ ("request_hash", Option.map string entry.request_hash)
      ∷ ("extra_idempotency_keys", skip_empty binding_value entry.extra_idempotency_keys)
      ∷ []

  unfoldable pub entry_value : DispatchQueueEntry → Value
  unfolding struct_fields write_items audit_value binding_value status_value
  entry_value entry = object (struct_fields (entry_fields entry))

  unfoldable pub read_fields : (String → Option Value) → Option DispatchQueueEntry
  unfolding read_items read_audit read_binding read_status
  read_fields at = do
    entry_id ← defaulted "" as_str (at "entry_id")
    subject_id ← optional as_str (at "subject_id")
    task_id ← required as_str (at "task_id")
    dispatch ← optional c.read_dispatch (at "dispatch")
    status ← defaulted pending read_status (at "status")
    workflow_id ← optional as_str (at "workflow_id")
    enqueued_at ← optional as_str (at "enqueued_at")
    assigned_at ← optional as_str (at "assigned_at")
    held_at ← optional as_str (at "held_at")
    run_at ← optional as_str (at "run_at")
    expire_after_secs ← optional read_u64 (at "expire_after_secs")
    audit_log ← defaulted [] (read_list read_audit) (at "audit_log")
    subject_generation ← optional read_u64 (at "subject_generation")
    workflow_generation ← optional read_u64 (at "workflow_generation")
    lease_owner ← optional as_str (at "lease_owner")
    lease_generation ← defaulted 0 read_u64 (at "lease_generation")
    lease_expires_at ← optional c.read_time (at "lease_expires_at")
    repository ← optional c.read_reservation (at "repository")
    idempotency_key ← optional as_str (at "idempotency_key")
    request_hash ← optional as_str (at "request_hash")
    extra_idempotency_keys ← defaulted [] (read_list read_binding) (at "extra_idempotency_keys")
    some (record {
      entry_id = entry_id;
      subject_id = subject_id;
      task_id = task_id;
      dispatch = dispatch;
      status = status;
      workflow_id = workflow_id;
      enqueued_at = enqueued_at;
      assigned_at = assigned_at;
      held_at = held_at;
      run_at = run_at;
      expire_after_secs = expire_after_secs;
      audit_log = audit_log;
      subject_generation = subject_generation;
      workflow_generation = workflow_generation;
      lease_owner = lease_owner;
      lease_generation = lease_generation;
      lease_expires_at = lease_expires_at;
      repository = repository;
      idempotency_key = idempotency_key;
      request_hash = request_hash;
      extra_idempotency_keys = extra_idempotency_keys;
    })

  unfoldable pub read_entry : Value → Option DispatchQueueEntry
  unfolding read_fields lookup
  read_entry (object fs) = read_fields (λ key. lookup key fs)
  read_entry _ = none

  -- A map by text is an object, a field for each key.
  unfoldable pub write_map : List (String × ℕ) → Fields
  write_map [] = end
  write_map ((key, n) ∷ rest) = field key (u64_value n) (write_map rest)

  unfoldable pub read_map : Fields → Option (List (String × ℕ))
  read_map end = some []
  read_map (field key v fs) = do n ← read_u64 v; rest ← read_map fs; some ((key, n) ∷ rest)

  abbrev pub read_generations : Value → Option (List (String × ℕ))
  read_generations (object fs) = read_map fs
  read_generations _ = none

  -- `skip_serializing_if = "BTreeMap::is_empty"`.
  abbrev pub generations_value : List (String × ℕ) → Option Value
  generations_value [] = none
  generations_value (g ∷ rest) = some (object (write_map (g ∷ rest)))

  abbrev pub state_fields : DispatchQueueState → List (String × Option Value)
  state_fields state =
      ("format_version", some (u64_value state.format_version))
      ∷ ("subject_generations", generations_value state.subject_generations)
      ∷ ("entries", some (array (write_items entry_value state.entries)))
      ∷ []

  unfoldable pub state_value : DispatchQueueState → Value
  unfolding struct_fields entry_value write_items write_map
  state_value state = object (struct_fields (state_fields state))

  unfoldable pub read_state : Value → Option DispatchQueueState
  unfolding read_items read_entry read_map lookup
  read_state (object fs) = do
    format_version ← defaulted 0 read_u32 (lookup "format_version" fs)
    subject_generations ← defaulted [] read_generations (lookup "subject_generations" fs)
    entries ← defaulted [] (read_list read_entry) (lookup "entries" fs)
    some (record {
      format_version = format_version;
      subject_generations = subject_generations;
      entries = entries;
    })
  read_state _ = none
