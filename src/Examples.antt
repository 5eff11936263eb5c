-- ===== src/Examples.antt =====
-- A small queue on which the theorems are tried: one task that waits, one that runs on a branch, and
-- one that waits for the same branch.
pub mod Tickets
pub mod Adds
pub mod Files
pub mod Queue
pub mod Front
pub mod Hashes
pub mod Written
pub mod Printing
pub mod Facts
pub mod Small
use mathlib.Core.List.{Perm}
use animus_queue_default.Common.{
  is_whitespace, true, ◌≡◌, max, trim, ok, ◌+◌, ◌*◌, refl, false, none, some, List, [], ◌∷◌, arith,
}
use animus_queue_default.Common.{show_nat, ◌<>◌}
use animus_queue_default.Json.{
  Value, null, boolean, number, string, array, object, field, end, unsigned, negative, float,
}
use animus_queue_default.Protocol.{
  QueueLeaseFence, ExecutionFence, applied, already_applied, SubjectDispatch, RepositoryReservation,
  QueueLeaseV2Request,
}
use animus_queue_default.State.{
  DispatchQueueEntry, DispatchQueueState, default_entry, default_state, assigned,
}
use animus_queue_default.State.Entry.{is_ticketed}
use animus_queue_default.History.Record.{HistoryRecord, finished, completed}
use animus_queue_default.External.{External, World, appends, saves}
use animus_queue_default.Io.{Disk, full}
use animus_queue_default.Service.Base.{QueueBackend}
use animus_queue_default.Service.Reorder.{reordered}
use animus_queue_default.Service.Reorder.Permutes.{reordered-perm}
use animus_queue_default.Store.Stored.{Stored, AnyHistory}
use animus_queue_default.Store.Loading.{IsSound, ReadsAs, disk_with, with_entry}
use animus_queue_default.State.Entry.{execution_fence, lease_is_live}
use animus_queue_default.History.{
  is_blank_line, is_ascii_whitespace, appended, find_in, has_entry_id,
}
use animus_queue_default.History.Recovery.{IsReadable, last_match, find_in-appended}
use animus_queue_default.Fenced.Ticket.{
  mutation_response, exact_fence_matches, fence_parts_match, same_repository,
}
use animus_queue_default.Fenced.Mutation.{
  complete, recover, renew, release_pending, fenced_mutation, recovered_entry, renewed_entry,
  put_back_entry,
}
use animus_queue_default.Fenced.Mutation.Fencing.{
  refused, Recovers, fenced_mutation-refuses, recover-shuts_out,
}
use animus_queue_default.Fenced.Mutation.Outcomes.{EndsAfter, renew-extends, release_pending-twice}
use animus_queue_default.Fenced.Mutation.Completion.{completed_disk, complete-twice}
use animus_queue_default.Common.{
  ℕ, String, ◌==◌, ◌<◌, ◌≤◌, ◌⊎◌, All, filter, not, map, leb, if◌then◌else◌,
}
use animus_queue_default.External.{tears}
use animus_queue_default.State.Entry.{expiry_deadline, parsed_run_at, bound_request_hash}
use animus_queue_default.Io.Keeps.{Answers}
use animus_queue_default.Store.{save_queue_state, load_queue_state}
use animus_queue_default.Service.Base.{
  commit, response, is_expired, sweep_record, sweep_entries, sweep_expired_entries,
}
use animus_queue_default.Service.Durability.{Recorded, commit-Recorded}
use animus_queue_default.Service.Mutations.{hold, release}
use animus_queue_default.Service.Mutations.Holding.{hold-release}
use animus_queue_default.Fenced.Generation.{
  recorded_generation, live_generation, next_subject_generation, live_entry_for_subject,
  highest_ticketed, is_ticketed_for, is_waiting_for,
}
use animus_queue_default.Fenced.Generation.Fresh.{IsBelow, next_subject_generation-fresh}
use animus_queue_default.Fenced.Request.{Enqueued}
use animus_queue_default.Fenced.Enqueue.{receipt, has_key, new_entry, enqueue_validated}
use animus_queue_default.Fenced.Enqueue.Idempotency.{
  subject_at, receipt_again, added_disk, enqueue-twice, enqueue_validated-replays,
}
use animus_queue_default.Fenced.Lease.{lease_v2}
use animus_queue_default.Fenced.Lease.Bounds.{IsBounded, lease_v2-IsBounded}
use animus_queue_default.HostGuard.{
  Semver, check_host, check_host-upward, parse_version, is_accepted,
}
use animus_queue_default.LeaseTtl.{parse_lease_ttl, parse_lease_ttl-bounds}
use animus_queue_default.Common.{length, get_elem?, ◌++◌, err}
use animus_queue_default.History.{find_history_by_idempotency_key, find_last}
use animus_queue_default.Service.Base.{QueueMutationError, QueueReleasePendingError}
use animus_queue_default.Service.Lease.{lease_state}
use animus_queue_default.Service.Listing.{page, page_size}
use animus_queue_default.Service.Listing.Pages.{page-consecutive}
use animus_queue_default.Service.Mutations.{mark_assigned}
use animus_queue_default.Service.Mutations
use animus_queue_default.Service.Mutations.Refusals.{ticketed-refused}
use animus_queue_default.Branches.Plain.{lease_state-spares_ticketed}
use animus_queue_default.Identity.{canonical_subject_id}
use animus_queue_default.Identity.Canonical.{canonical_subject_id-again}
use animus_queue_default.Fenced.Enqueue.{bind_key}
use animus_queue_default.Fenced.Enqueue.Joining.{joined, enqueue_validated-joins}
use animus_queue_default.Calls.{Call, leases_v2, drops, after_calls}
use animus_queue_default.Fenced.Ticket.{is_running_on}
use animus_queue_default.Branches.Changes.{Exclusive}
use animus_queue_default.Branches.Invariant.{after_calls-Exclusive}

abbrev pub task_dispatch : SubjectDispatch
task_dispatch = record {
  subject = some (record { kind = "task"; id = "T1" });
  subject_id = some "T1";
  workflow_ref = "build";
  requested_at = "now";
  envelope = "";
}

abbrev pub main_branch : RepositoryReservation
main_branch = record { repository = "repo"; base_ref = "main"; head_ref = "feature" }

abbrev pub plain_entry : DispatchQueueEntry
plain_entry = record default_entry {
  entry_id = "plain";
  subject_id = some "T1";
  dispatch = some task_dispatch;
}

abbrev pub running_entry : DispatchQueueEntry
running_entry = record default_entry {
  entry_id = "running";
  subject_id = some "task:T2";
  dispatch = some task_dispatch;
  status = assigned;
  workflow_id = some "w1";
  subject_generation = some 4;
  workflow_generation = some 1;
  lease_owner = some "daemon";
  lease_generation = 7;
  lease_expires_at = some 900;
  repository = some main_branch;
}

abbrev pub done_record : HistoryRecord
done_record = finished 1000 running_entry completed "queue/v2/completion" none

-- Texts are quoted as they are, without escapes.
abbrev scalar_text : Value → String
scalar_text null = "null"
scalar_text (boolean true) = "true"
scalar_text (boolean false) = "false"
scalar_text (number (unsigned n)) = show_nat n
scalar_text (number (negative n)) = "-" <> show_nat (n + 1)
scalar_text (number (float bits)) = "0." <> show_nat bits
scalar_text (string s) = "\"" <> s <> "\""
scalar_text (array xs) = ""
scalar_text (object fs) = ""

abbrev pub dispatch_value0 : SubjectDispatch → Value
dispatch_value0 dispatch = object (
    field "requested_at" (string dispatch.requested_at)
      (field "workflow_ref" (string dispatch.workflow_ref) end))

abbrev pub x0 : External
x0 = record {
  parse_from_rfc3339 = λ s. none;
  rfc3339_error = λ s. "no time";
  to_rfc3339 = λ n. "now";
  add_seconds = λ at secs. at + secs * 1000000000;
  try_seconds = λ secs. some (secs * 1000000000);
  checked_add_signed = λ at delta. some (at + delta);
  collision_key = λ r. r.head_ref;
  execution_fence_schema_id = "fence";
  execution_fence_version = 1;
  validate_enqueue = λ r. none;
  validate_lease = λ r. none;
  validate_renew = λ r. none;
  validate_recover = λ r. none;
  validate_completion = λ r. none;
  validate_release_pending = λ r. none;
  to_lowercase = λ s. s;
  encode_record = λ r. 123 ∷ 125 ∷ [];
  decode_record = λ bytes. some done_record;
  json_text = scalar_text;
  dispatch_value = dispatch_value0;
  reservation_value = λ r. string r.head_ref;
  sha256_hex = λ text. text;
}

abbrev pub w0 : World
w0 = record {
  now = 1000;
  uuid = λ n. "fresh";
  migration_uuid = λ n. "migrated";
  lock_fails = false;
  read_fails = false;
  migration = saves;
  append = appends;
  save = saves;
  history_read_fails = false;
}

abbrev pub b0 : QueueBackend
b0 = record { project_root = "/project"; lease_ttl_secs = 1800 }

abbrev pub waiting_entry : DispatchQueueEntry
waiting_entry = record default_entry {
  entry_id = "waiting";
  subject_id = some "task:T3";
  dispatch = some task_dispatch;
  subject_generation = some 1;
  repository = some main_branch;
}

abbrev pub three_entries : List DispatchQueueEntry
three_entries = plain_entry ∷ running_entry ∷ waiting_entry ∷ []

abbrev pub three_state : DispatchQueueState
three_state = record default_state { format_version = 2; entries = three_entries }

abbrev pub three_disk : Disk
three_disk = record { queue_json = some (full three_state); history = none }

abbrev pub lease_request : QueueLeaseV2Request
lease_request = record {
  max = 2;
  owner_id = "daemon2";
  workflow_ids = "w5" ∷ "w6" ∷ [];
  exclude = [];
}
