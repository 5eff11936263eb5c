-- ===== src/Plugin/Meaning.antt =====
-- What a request of the host means to the queue, without the handlers of src/plugin.rs: the call
-- that it asks for, or the backend that it binds.
use mathlib.Core.Option
use animus_queue_default.Common.{
  Bool, true, false, if◌then◌else◌, Option, none, some, List, [], ◌∷◌, Result, ok, err, and_then,
}
use animus_queue_default.Json.{Value, get, as_str}
use animus_queue_default.Rpc.{RpcRequest}
use animus_queue_default.External.{World}
use animus_queue_default.HostGuard.{check_host}
use animus_queue_default.Service.Base.{QueueBackend}
use animus_queue_default.Calls.{
  Call, enqueues, lists, leases, counts, next_deadlines, holds, releases, drops, releases_pending,
  reorders, marks_assigned, completes, enqueues_v2, leases_v2, renews, recovers, completes_v2,
  releases_pending_v2, after_call,
}
use animus_queue_default.Plugin.Wire.{
  Wire, Process, Reads, QueueEnqueueRequest, QueueListRequest, QueueLeaseRequest, EntryRequest,
  QueueReleasePendingParams, QueueReorderRequest, QueueMarkAssignedRequest, QueueCompletionRequest,
}
use animus_queue_default.Plugin.Base.{Session, with_disk}
use animus_queue_default.Plugin.Plain.{no_filter}
use animus_queue_default.Plugin.Initialize.{extract_project_root, new_backend, host_version}
use animus_queue_default.Plugin.Requests.{
  QueueMethod, enqueue, list, lease, stats, next_deadline, hold, release, release_pending, drop,
  reorder, mark_assigned, completion, enqueue_v2, lease_v2, lease_renew, lease_recover,
  completion_v2, release_pending_v2, Arm, queue, initialize, initialized, ping, health_check,
  shutdown, exit, notification, unknown, arm_of,
}

abbrev pub to_option : {E A : Type 0} → Result E A → Option A
to_option (ok a) = some a
to_option (err e) = none

abbrev pub parsed : {A : Type 0} → Reads A → Option Value → Option A
parsed read none = none
parsed read (some value) = to_option (read value)

abbrev pub list_parsed : Reads QueueListRequest → Option Value → Option QueueListRequest
list_parsed read none = some no_filter
list_parsed read (some value) = to_option (read value)

module _ (t : Wire) where
  abbrev pub call_of : QueueMethod → Option Value → Option Call
  call_of enqueue params =
      Option.map
        (λ (r : QueueEnqueueRequest). enqueues r.subject_dispatch r.run_at r.expire_after_secs)
        (parsed t.read_enqueue params)
  call_of list params =
      Option.map (λ (r : QueueListRequest). lists r.status r.limit r.offset)
        (list_parsed t.read_list params)
  call_of lease params =
      Option.map (λ (r : QueueLeaseRequest). leases r.max r.workflow_ids r.exclude_subjects)
        (parsed t.read_lease params)
  call_of stats params = some counts
  call_of next_deadline params = some next_deadlines
  call_of hold params =
      Option.map (λ (r : EntryRequest). holds r.entry_id) (parsed t.read_hold params)
  call_of release params =
      Option.map (λ (r : EntryRequest). releases r.entry_id) (parsed t.read_release params)
  call_of release_pending params =
      Option.map (λ (r : QueueReleasePendingParams). releases_pending r.entry_id r.reason)
        (parsed t.read_release_pending params)
  call_of drop params =
      Option.map (λ (r : EntryRequest). drops r.entry_id) (parsed t.read_drop params)
  call_of reorder params =
      Option.map (λ (r : QueueReorderRequest). reorders r.entry_ids) (parsed t.read_reorder params)
  call_of mark_assigned params =
      Option.map (λ (r : QueueMarkAssignedRequest). marks_assigned r.entry_id r.workflow_id)
        (parsed t.read_mark_assigned params)
  call_of completion params =
      Option.map
        (λ (r : QueueCompletionRequest). completes r.entry_id r.status r.workflow_ref r.workflow_id)
        (parsed t.read_completion params)
  call_of enqueue_v2 params = Option.map enqueues_v2 (parsed t.read_enqueue_v2 params)
  call_of lease_v2 params = Option.map leases_v2 (parsed t.read_lease_v2 params)
  call_of lease_renew params = Option.map renews (parsed t.read_renew params)
  call_of lease_recover params = Option.map recovers (parsed t.read_recover params)
  call_of completion_v2 params = Option.map completes_v2 (parsed t.read_completion_v2 params)
  call_of release_pending_v2 params =
      Option.map releases_pending_v2 (parsed t.read_release_pending_v2 params)

pub data Meaning : Type 0 where
  nothing : Meaning
  calls : Call → Meaning
  binds : QueueBackend → Meaning

abbrev pub calls_or_nothing : Option Call → Meaning
calls_or_nothing none = nothing
calls_or_nothing (some call) = calls call

abbrev pub binds_or_nothing : Option QueueBackend → Meaning
binds_or_nothing none = nothing
binds_or_nothing (some backend) = binds backend

module _ (p : Process) where
  -- The backend that the params of `initialize` bind: if the host is accepted, the params are
  -- read, and they name a project root.
  abbrev pub bound_by : Value → Option QueueBackend
  bound_by value =
      and_then
        (to_option (
          check_host p.semver p.package_version (and_then (get value "protocol_version") as_str)
            (host_version p value)))
        (λ _.
          and_then (to_option (p.wire.read_initialize value))
            (λ init. Option.map (new_backend p) (to_option (extract_project_root init))))

  abbrev pub meaning_of : Arm → Option Value → Meaning
  meaning_of initialize params = binds_or_nothing (and_then params bound_by)
  meaning_of (queue method) params = calls_or_nothing (call_of p.wire method params)
  meaning_of initialized params = nothing
  meaning_of ping params = nothing
  meaning_of health_check params = nothing
  meaning_of shutdown params = nothing
  meaning_of exit params = nothing
  meaning_of notification params = nothing
  meaning_of unknown params = nothing

  abbrev pub meaning : RpcRequest → Meaning
  meaning request = meaning_of (arm_of request.method) request.params

  abbrev pub called : World → Call → Option QueueBackend → Session → Session
  called w call none s = s
  called w call (some b) s =
      let root = p.place b.project_root in
      record s { disks = with_disk p s.disks root (after_call p.external b w call (s.disks root)) }

  -- The session after a request of that meaning.
  abbrev pub realised : World → Meaning → Session → Session
  realised w nothing s = s
  realised w (calls call) s = called w call s.backend s
  realised w (binds b) s = record s { backend = some b }

  abbrev pub is_exit : Arm → Bool
  is_exit exit = true
  is_exit initialize = false
  is_exit (queue method) = false
  is_exit initialized = false
  is_exit ping = false
  is_exit health_check = false
  is_exit shutdown = false
  is_exit notification = false
  is_exit unknown = false

  -- The session after requests, up to an `exit`.
  abbrev pub all_realised : List (World × RpcRequest) → Session → Session
  all_realised [] s = s
  all_realised ((w, request) ∷ requests) s =
      let after = realised w (meaning request) s in
      let rest = all_realised requests after in
      if is_exit (arm_of request.method) then after else rest
