-- ===== src/State/Written/RoundTrip.antt =====
-- What is written to `queue.json` is read as it was.
use mathlib.Core.Option
use animus_queue_default.Common.{
  ℕ, ◌<◌, ◌≡◌, refl, ap, ◌∙◌, String, false, Option, none, some, List, [], ◌∷◌, ◌==◌, or_else,
  arith, Bool-cases, inl, inr, if◌then◌else◌,
}
use animus_queue_default.Json.{Value, string, lookup, as_str, optional_string}
use animus_queue_default.Protocol.{SubjectDispatch, RepositoryReservation}
use animus_queue_default.State.{
  DispatchQueueEntry, DispatchQueueEntryStatus, DispatchQueueAuditEntry, IdempotencyBinding,
  DispatchQueueState, pending, assigned, held, unknown, as_wire,
}
use animus_queue_default.State.Written.{
  Codec, struct_fields, write_items, read_items, read_list, skip_empty, defaulted, optional,
  is_null, skip_zero, u64_value, read_u64, read_status, status_value, binding_value, read_binding,
  audit_value, read_audit,
}
use animus_queue_default.State.Written.Entries.{
  entry_fields, entry_value, read_fields, read_entry, write_map, read_map, read_generations,
  generations_value, state_fields, state_value, read_state,
}

-- What the other crates write they read as it was, and it is not `null`.
pub record IsFaithful (c : Codec) : Type 0 where
  pub time : (t : ℕ) → c.read_time (c.time_value t) ≡ some t
  pub time_present : (t : ℕ) → is_null (c.time_value t) ≡ false
  pub dispatch : (d : SubjectDispatch) → c.read_dispatch (c.dispatch_value d) ≡ some d
  pub dispatch_present : (d : SubjectDispatch) → is_null (c.dispatch_value d) ≡ false
  pub reservation :
      (r : RepositoryReservation) → c.read_reservation (c.reservation_value r) ≡ some r
  pub reservation_present : (r : RepositoryReservation) → is_null (c.reservation_value r) ≡ false

-- What a field of a struct is found as.
abbrev found : String → List (String × Option Value) → Option Value
found key [] = none
found key ((k, o) ∷ rest) =
    let later = found key rest in if k == key then or_else o later else later

lookup-struct_fields :
    (key : String) (fs : List (String × Option Value))
    → lookup key (struct_fields fs) ≡ found key fs
unfolding struct_fields lookup
lookup-struct_fields key [] = refl
lookup-struct_fields key ((k, none) ∷ rest) = elim (Bool-cases (k == key)) [
  | inl e ↦ rw e (lookup-struct_fields key rest)
  | inr e ↦ rw e (lookup-struct_fields key rest)
]
lookup-struct_fields key ((k, some v) ∷ rest) = elim (Bool-cases (k == key)) [
  | inl e ↦ rw e refl
  | inr e ↦ rw e (lookup-struct_fields key rest)
]

module _ {A : Type 0} (write : A → Value) (read : Value → Option A)
    (same : (a : A) → read (write a) ≡ some a) where
  pub read_items-write_items : (xs : List A) → read_items read (write_items write xs) ≡ some xs
  unfolding read_items write_items
  read_items-write_items [] = refl
  read_items-write_items (a ∷ xs) = rw (same a, read_items-write_items xs) refl

  list_back :
      (xs : List A) → defaulted [] (read_list read) (or_else (skip_empty write xs) none) ≡ some xs
  list_back [] = refl
  list_back (a ∷ xs) = read_items-write_items (a ∷ xs)

  option_back :
      ((a : A) → is_null (write a) ≡ false)
      → (o : Option A) → optional read (or_else (Option.map write o) none) ≡ some o
  option_back present none = refl
  option_back present (some a) = rw (present a, same a) refl

string_back : (o : Option String) → optional as_str (or_else (Option.map string o) none) ≡ some o
string_back none = refl
string_back (some s) = refl

null_back : (o : Option String) → optional as_str (some (optional_string o)) ≡ some o
null_back none = refl
null_back (some s) = refl

number_back : (o : Option ℕ) → optional read_u64 (or_else (Option.map u64_value o) none) ≡ some o
number_back none = refl
number_back (some n) = refl

zero_back : (n : ℕ) → defaulted 0 read_u64 (or_else (skip_zero n) none) ≡ some n
zero_back n = ground arith

status_back : (status : DispatchQueueEntryStatus) → read_status (status_value status) ≡ some status
unfolding read_status status_value as_wire
status_back pending = refl
status_back assigned = refl
status_back held = refl
status_back unknown = refl

binding_back : (b : IdempotencyBinding) → read_binding (binding_value b) ≡ some b
unfolding read_binding binding_value struct_fields lookup
binding_back b = refl

audit_back : (row : DispatchQueueAuditEntry) → read_audit (audit_value row) ≡ some row
unfolding read_audit audit_value struct_fields lookup
audit_back row = refl

module _ (c : Codec) (h : IsFaithful c) where
  found_back :
      (entry : DispatchQueueEntry)
      → read_fields c (λ key. found key (entry_fields c entry)) ≡ some entry
  unfolding read_fields
  found_back entry =
      rw
        (
          string_back entry.subject_id,
          option_back c.dispatch_value c.read_dispatch h.dispatch h.dispatch_present entry.dispatch,
          status_back entry.status,
          null_back entry.workflow_id,
          null_back entry.enqueued_at,
          null_back entry.assigned_at,
          null_back entry.held_at,
          string_back entry.run_at,
          number_back entry.expire_after_secs,
          list_back audit_value read_audit audit_back entry.audit_log,
          number_back entry.subject_generation,
          number_back entry.workflow_generation,
          string_back entry.lease_owner,
          zero_back entry.lease_generation,
          option_back c.time_value c.read_time h.time h.time_present entry.lease_expires_at,
          option_back c.reservation_value c.read_reservation h.reservation h.reservation_present
              entry.repository,
          string_back entry.idempotency_key,
          string_back entry.request_hash,
          list_back binding_value read_binding binding_back entry.extra_idempotency_keys,
        )
        refl

  pub entry_back : (entry : DispatchQueueEntry) → read_entry c (entry_value c entry) ≡ some entry
  unfolding read_entry entry_value
  entry_back entry =
      ap (read_fields c) (λ i key. lookup-struct_fields key (entry_fields c entry) i)
      ∙ found_back entry

  map_back : (gs : List (String × ℕ)) → read_map c (write_map c gs) ≡ some gs
  unfolding read_map write_map
  map_back [] = refl
  map_back ((key, n) ∷ rest) = rw (map_back rest) refl

  generations_back :
      (gs : List (String × ℕ))
      → defaulted [] (read_generations c) (or_else (generations_value c gs) none) ≡ some gs
  generations_back [] = refl
  generations_back (g ∷ rest) = map_back (g ∷ rest)

  -- If the other crates read the times, dispatches and reservations that they write as they were,
  -- and write none of them as `null`: what is written of a state whose version fits in 32 bits is
  -- read as that state, each field that was skipped by its default.
  pub read_state-state_value :
      (state : DispatchQueueState)
      → state.format_version < 0x100000000
      → read_state c (state_value c state) ≡ some state
  unfolding read_state state_value
  read_state-state_value state small =
      rw
        (
          lookup-struct_fields "format_version" (state_fields c state),
          lookup-struct_fields "subject_generations" (state_fields c state),
          lookup-struct_fields "entries" (state_fields c state),
          generations_back state.subject_generations,
          read_items-write_items (entry_value c) (read_entry c) entry_back state.entries,
        )
        (ground (arith, small))
