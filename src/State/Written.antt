-- ===== src/State/Written.antt =====
-- The JSON of `queue.json`, as the serde attributes of src/dispatch_queue_state.rs have it: what is
-- written for each field or skipped, and what a missing field is read as. Times, dispatches and
-- reservations are written and read by other crates. serde also takes a list of the fields in place
-- of an object; that form is left out.
pub mod Entries
pub mod RoundTrip
use mathlib.Core.Option
use animus_queue_default.Common.{
  ℕ, String, Bool, true, false, Option, none, some, List, [], ◌∷◌, ◌==◌, ltb, eqb, and_then,
  if◌then◌else◌,
}
use animus_queue_default.Protocol.{SubjectDispatch, RepositoryReservation}
use animus_queue_default.Json.{
  Value, Items, Fields, null, boolean, number, string, array, object, nil, cons, end, field,
  unsigned, lookup, as_str, optional_string,
}
use animus_queue_default.State.{
  DispatchQueueEntry, DispatchQueueEntryStatus, DispatchQueueAuditEntry, IdempotencyBinding,
  DispatchQueueState, pending, assigned, held, unknown, as_wire,
}

-- What chrono and the protocol crates write and read.
pub record Codec : Type 0 where
  pub time_value : ℕ → Value
  pub read_time : Value → Option ℕ
  pub dispatch_value : SubjectDispatch → Value
  pub read_dispatch : Value → Option SubjectDispatch
  pub reservation_value : RepositoryReservation → Value
  pub read_reservation : Value → Option RepositoryReservation

infixl 5 ◌>>=◌
abbrev ◌>>=◌ : {A B : Type 0} → Option A → (A → Option B) → Option B
◌>>=◌ = and_then

-- The fields of a struct, in order; one that is skipped has no value.
unfoldable pub struct_fields : List (String × Option Value) → Fields
struct_fields [] = end
struct_fields ((key, none) ∷ rest) = struct_fields rest
struct_fields ((key, some v) ∷ rest) = field key v (struct_fields rest)

module _ {A : Type 0} where
  unfoldable pub write_items : (A → Value) → List A → Items
  write_items write [] = nil
  write_items write (a ∷ rest) = cons (write a) (write_items write rest)

  unfoldable pub read_items : (Value → Option A) → Items → Option (List A)
  read_items read nil = some []
  read_items read (cons v rest) = do a ← read v; tail ← read_items read rest; some (a ∷ tail)

  abbrev pub read_list : (Value → Option A) → Value → Option (List A)
  read_list read (array items) = read_items read items
  read_list read null = none
  read_list read (boolean b) = none
  read_list read (number n) = none
  read_list read (string s) = none
  read_list read (object fs) = none

  -- `skip_serializing_if = "Vec::is_empty"`.
  abbrev pub skip_empty : (A → Value) → List A → Option Value
  skip_empty write [] = none
  skip_empty write (a ∷ rest) = some (array (write_items write (a ∷ rest)))

  -- A field without a default, one with `#[serde(default)]`, and an `Option` with it.
  abbrev pub required : (Value → Option A) → Option Value → Option A
  required read none = none
  required read (some v) = read v

  abbrev pub defaulted : A → (Value → Option A) → Option Value → Option A
  defaulted d read none = some d
  defaulted d read (some v) = read v

abbrev pub is_null : Value → Bool
is_null null = true
is_null (boolean b) = false
is_null (number n) = false
is_null (string s) = false
is_null (array items) = false
is_null (object fs) = false

abbrev pub optional : {A : Type 0} → (Value → Option A) → Option Value → Option (Option A)
optional read none = some none
optional read (some v) = if is_null v then some none else Option.map some (read v)

abbrev pub read_u64 : Value → Option ℕ
read_u64 (number (unsigned n)) = some n
read_u64 _ = none

abbrev pub read_u32 : Value → Option ℕ
read_u32 v = do n ← read_u64 v; if ltb n 0x100000000 then some n else none

-- `skip_serializing_if = "is_zero"`.
abbrev pub skip_zero : ℕ → Option Value
skip_zero n = if eqb n 0 then none else some (number (unsigned n))

abbrev pub u64_value : ℕ → Value
u64_value n = number (unsigned n)

-- `#[serde(other)]` takes every word that is no other status.
abbrev status_of : String → DispatchQueueEntryStatus
status_of word =
    if word == "pending"
    then pending
    else if word == "assigned"
    then assigned
    else if word == "held"
    then held
    else unknown

unfoldable pub read_status : Value → Option DispatchQueueEntryStatus
read_status v = Option.map status_of (as_str v)

unfoldable pub status_value : DispatchQueueEntryStatus → Value
unfolding as_wire
status_value status = string (as_wire status)

unfoldable pub binding_value : IdempotencyBinding → Value
unfolding struct_fields
binding_value binding = object (
    struct_fields (
      ("key", some (string binding.key))
      ∷ ("request_hash", some (string binding.request_hash))
      ∷ []))

unfoldable pub read_binding : Value → Option IdempotencyBinding
unfolding lookup
read_binding (object fs) = do
  key ← required as_str (lookup "key" fs)
  request_hash ← required as_str (lookup "request_hash" fs)
  some (record { key = key; request_hash = request_hash })
read_binding _ = none

unfoldable pub audit_value : DispatchQueueAuditEntry → Value
unfolding struct_fields
audit_value row = object (
    struct_fields (
      ("at", some (string row.at))
      ∷ ("method", some (string row.method))
      ∷ ("from_status", some (string row.from_status))
      ∷ ("to_status", some (string row.to_status))
      ∷ ("reason", some (string row.reason))
      ∷ []))

unfoldable pub read_audit : Value → Option DispatchQueueAuditEntry
unfolding lookup
read_audit (object fs) = do
  at ← required as_str (lookup "at" fs)
  method ← required as_str (lookup "method" fs)
  from_status ← required as_str (lookup "from_status" fs)
  to_status ← required as_str (lookup "to_status" fs)
  reason ← required as_str (lookup "reason" fs)
  some (record {
    at = at;
    method = method;
    from_status = from_status;
    to_status = to_status;
    reason = reason;
  })
read_audit _ = none
