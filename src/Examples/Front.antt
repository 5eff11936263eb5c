-- ===== src/Examples/Front.antt =====
-- Examples for src/plugin.rs: a host that binds a project, hands out leases and ends.
use animus_queue_default.Common.{
  arith, ◌≡◌, ◌≢◌, ◌≤◌, refl, ℕ, String, Option, none, some, List, [], ◌∷◌, ◌++◌, Result, ok, err,
  and_then, trim, is_whitespace, eqb, if◌then◌else◌,
}
use animus_queue_default.Json.{Value, null, string, object, field, end, lookup, get, as_str}
use animus_queue_default.Rpc.{RpcRequest, respond_error}
use animus_queue_default.External.{World}
use animus_queue_default.History.{is_ascii_whitespace}
use animus_queue_default.Branches.Changes.{Exclusive}
use animus_queue_default.HostGuard.{check_host, parse_version, is_accepted}
use animus_queue_default.LeaseTtl.{max_lease_ttl_secs}
use animus_queue_default.Store.Stored.{Stored, AnyHistory}
use animus_queue_default.Plugin.Wire.{Wire, Process, EntryRequest, InitializeParams, Reads, Writes}
use animus_queue_default.Plugin.Base.{Session}
use animus_queue_default.Plugin.Initialize.{
  extract_project_root, handle_initialize, host_version, new_backend, present, read_init,
}
use animus_queue_default.Plugin.Requests.{serve, arm_of, queue_arm, handle_request, stats, responds}
use animus_queue_default.Common.{eq_iff}
use animus_queue_default.Plugin.Isolation.{serve-rebound}
use animus_queue_default.Service.Durability.{history_bytes}
use animus_queue_default.Calls.Growth.{IsExtended}
use animus_queue_default.Plugin.Projects.{serve-Exclusive, serve-IsExtended}
use animus_queue_default.Plugin.Binding.{
  host_check, not_initialized, handle_request-unbound, handle_initialize-binds, serve-unbound,
}
use animus_queue_default.Plugin.Replies.{Answers, handle_request-answers}
use animus_queue_default.Plugin.Advertised.{is_served, is_advertised, is_advertised-served}
use animus_queue_default.Plugin.Frames.{Frame, reads, incomplete, invalid, nothing, read_chunks}
use animus_queue_default.State.Entry.{is_ticketed}
use animus_queue_default.Plugin.Plain.{handle_mark_assigned, handle_release_pending}
use animus_queue_default.Plugin.Refusals.{IsRefusedAs, ticketed-IsRefusedAs}
use animus_queue_default.Examples.Facts.{three-ReadsAs}
use animus_queue_default.Plugin.Frames.{drain}
use animus_queue_default.Plugin.Frames.Turns.{drain-length}
use animus_queue_default.Plugin.Frames.Framed.{Framed, IsFramed}
use animus_queue_default.Plugin.Frames.Chunks.{read_chunks-requests}
use animus_queue_default.Examples.{
  b0, three_state, running_entry, x0, w0, lease_request, three_disk,
}
use animus_queue_default.Examples.Facts.{three_state-Exclusive}
use animus_queue_default.Examples.Small.{s0}

-- A reader of requests that are not sent here, and a writer whose text is not looked at.
abbrev unread : {A : Type 0} → Reads A
unread value = err "not sent"

abbrev written : {A : Type 0} → Writes A
written a = ok null

abbrev entry_of : Option String → Result String EntryRequest
entry_of none = err "missing field `entry_id`"
entry_of (some id) = ok (record { entry_id = id })

abbrev extensions_of : Option Value → Result String InitializeParams
extensions_of (some (object fs)) = ok (record { init_extensions = fs })
extensions_of _ = err "missing field `init_extensions`"

abbrev t0 : Wire
t0 = record {
  read_initialize = λ value. extensions_of (get value "init_extensions");
  read_enqueue = unread;
  read_list = unread;
  read_lease = unread;
  read_hold = unread;
  read_release = unread;
  read_release_pending = λ value. ok (record { entry_id = "running"; reason = "stopped" });
  read_drop = λ value. entry_of (and_then (get value "entry_id") as_str);
  read_reorder = unread;
  read_mark_assigned = λ value. ok (record { entry_id = "running"; workflow_id = none });
  read_completion = unread;
  read_enqueue_v2 = unread;
  read_lease_v2 = λ value. ok lease_request;
  read_renew = unread;
  read_recover = unread;
  read_completion_v2 = unread;
  read_release_pending_v2 = unread;
  write_initialize = written;
  write_capabilities = written;
  healthy = ok null;
  write_enqueue = written;
  write_list = written;
  write_lease = written;
  write_stats = written;
  write_next_deadline = written;
  write_mutation = written;
  write_release_pending = written;
  write_reorder = written;
  write_enqueue_v2 = written;
  write_lease_v2 = written;
  write_lease_mutation = written;
  error_text = λ error. "failed";
  protocol_version = "1.2.0";
  queue_protocol_version = "1.0.0";
  plugin_kind_queue = "queue";
  kind = "queue";
}

abbrev p0 : Process
p0 = record {
  external = x0;
  semver = s0;
  wire = t0;
  lease_ttl_env = some "60";
  package_version = "0.4.0";
  place = λ path. path;
}

abbrev initialize_params : Value
initialize_params = object (
    field "protocol_version" (string "1.2.0") (
      field "init_extensions"
        (object
          (field "project_binding" (object (field "project_root" (string "/project") end)) end))
        end))

abbrev sent : String → Value → RpcRequest
sent method params = record { id = some (string "1"); method = method; params = some params }

abbrev session : List (World × RpcRequest)
session =
    (w0, sent "initialize" initialize_params)
    ∷ (w0, sent "queue/v2/lease" null)
    ∷ (w0, sent "queue/drop" (object (field "entry_id" (string "waiting") end)))
    ∷ (w0, sent "exit" null)
    ∷ []

abbrev early_session : List (World × RpcRequest)
early_session =
    (w0, sent "queue/stats" null) ∷ (w0, sent "queue/v2/lease" null) ∷ (w0, sent "$/ping" null) ∷ []

abbrev fresh_session : Session
fresh_session = record { backend = none; disks = λ root. three_disk }

-- A session of another project.
abbrev old_session : Session
old_session = record {
  backend = some (record { project_root = "/old"; lease_ttl_secs = 60 });
  disks = λ root. three_disk;
}

abbrev later_session : List (World × RpcRequest)
later_session =
    (w0, sent "queue/v2/lease" null)
    ∷ (w0, sent "queue/drop" (object (field "entry_id" (string "waiting") end)))
    ∷ []

serve-rebound_example :
    let s' = (handle_initialize p0 none (some initialize_params) old_session).0 in
    (s'.backend ≡ some (new_backend p0 "/project"))
    × ((serve p0 later_session s').0.disks "/old" ≡ three_disk)
unfolding extract_project_root check_host host_version lookup parse_version is_accepted trim
    is_whitespace arm_of queue_arm
serve-rebound_example =
    serve-rebound p0 none initialize_params _ "/project" old_session refl refl refl later_session
      (refl, (refl, tt)) "/old" (λ e. ground (arith, (eq_iff "/old" "/project").1 e))

serve-Exclusive_example :
    Stored (Exclusive x0) AnyHistory ((serve p0 session fresh_session).0.disks "/project")
serve-Exclusive_example =
    serve-Exclusive p0 session fresh_session (λ root. (three_state-Exclusive, tt)) "/project"

handle_request-unbound_example :
    handle_request p0 w0 (sent "queue/stats" null) fresh_session
    ≡ (fresh_session, responds (respond_error (some (string "1")) not_initialized))
unfolding arm_of queue_arm
handle_request-unbound_example =
    handle_request-unbound p0 w0 (sent "queue/stats" null) fresh_session stats refl refl

serve-unbound_example : (serve p0 early_session fresh_session).0 ≡ fresh_session
unfolding arm_of queue_arm
serve-unbound_example = serve-unbound p0 early_session fresh_session refl (refl, (refl, (refl, tt)))

handle_initialize-binds_example :
    (host_check p0 initialize_params ≡ ok tt)
    × ((init : InitializeParams) × (t0.read_initialize initialize_params ≡ ok init)
        × (extract_project_root init ≡ ok "/project"))
    × (1 ≤ (new_backend p0 "/project").lease_ttl_secs)
    × ((new_backend p0 "/project").lease_ttl_secs ≤ max_lease_ttl_secs)
unfolding handle_initialize present read_init extract_project_root check_host host_version lookup
    new_backend parse_version is_accepted trim is_whitespace
handle_initialize-binds_example =
    handle_initialize-binds p0 none initialize_params fresh_session (new_backend p0 "/project") refl
      refl

handle_request-answers_example :
    Answers p0 w0
      (arm_of "queue/drop")
      (sent "queue/drop" null)
      (handle_request p0 w0 (sent "queue/drop" null) fresh_session).1
handle_request-answers_example = handle_request-answers p0 w0 (sent "queue/drop" null) fresh_session

is_advertised-served_example : is_advertised "queue/v2/lease" ≡ is_served (arm_of "queue/v2/lease")
is_advertised-served_example = is_advertised-served "queue/v2/lease"

-- A parser that knows one request, `{}`.
abbrev ping : RpcRequest
ping = record { id = none; method = "$/ping"; params = none }

abbrev parse0 : List ℕ → Frame
parse0 [] = nothing
parse0 (a ∷ []) = incomplete
parse0 (a ∷ b ∷ more) = if eqb b b'}' then reads ping 2 else invalid

abbrev ping_framed : Framed
ping_framed = record { gap = b'\n' ∷ []; bytes = b'{' ∷ b'}' ∷ []; request = ping }

abbrev ping_chunks : List (List ℕ)
ping_chunks = (b'\n' ∷ b'{' ∷ []) ∷ (b'}' ∷ b'\n' ∷ b'{' ∷ b'}' ∷ []) ∷ []

ping_cut :
    (front back : List ℕ)
    → front ++ back ≡ ping_framed.bytes
    → front ≢ []
    → back ≢ []
    → parse0 front ≡ incomplete
ping_cut [] back e n m = absurd (n refl)
ping_cut (a ∷ []) back e n m = refl
ping_cut (a ∷ b ∷ []) back e n m = absurd (m cc)
ping_cut (a ∷ b ∷ c ∷ front) back e n m = cc

ping-IsFramed : IsFramed parse0 ping_framed
unfolding is_ascii_whitespace
ping-IsFramed = record {
  blank = (refl, tt);
  begins = (_, _, refl, refl);
  whole = λ more. refl;
  cut = ping_cut;
}

read_chunks-requests_example : (read_chunks parse0 [] ping_chunks).0 ≡ ping ∷ ping ∷ []
unfolding is_ascii_whitespace
read_chunks-requests_example =
    read_chunks-requests parse0 ping_chunks
      (ping_framed ∷ record ping_framed { gap = b'\n' ∷ [] } ∷ []) []
      (ping-IsFramed, (ping-IsFramed, tt)) tt refl

serve-IsExtended_example :
    IsExtended
      (history_bytes (fresh_session.disks "/project"))
      (history_bytes ((serve p0 session fresh_session).0.disks "/project"))
serve-IsExtended_example = serve-IsExtended p0 session fresh_session "/project"

parse0-advances :
    (bytes : List ℕ) (request : RpcRequest) (consumed : ℕ)
    → parse0 bytes ≡ reads request consumed
    → 1 ≤ consumed
parse0-advances [] request consumed e = cc
parse0-advances (a ∷ []) request consumed e = cc
parse0-advances (a ∷ b ∷ more) request consumed e = ground arith

drain-length_example :
    drain parse0 9 (b'x' ∷ b'\n' ∷ b'{' ∷ b'}' ∷ b'{' ∷ [])
    ≡ drain parse0 6 (b'x' ∷ b'\n' ∷ b'{' ∷ b'}' ∷ b'{' ∷ [])
drain-length_example =
    drain-length parse0 parse0-advances 9 (b'x' ∷ b'\n' ∷ b'{' ∷ b'}' ∷ b'{' ∷ []) (omega arith)

abbrev bound_session : Session
bound_session = record fresh_session { backend = some b0 }

ticketed-IsRefusedAs_example :
    IsRefusedAs none "running" bound_session
      (handle_mark_assigned p0 w0 none (some null) bound_session)
    × IsRefusedAs none "running" bound_session
        (handle_release_pending p0 w0 none (some null) bound_session)
unfolding is_ticketed
ticketed-IsRefusedAs_example =
    ticketed-IsRefusedAs p0 w0 none bound_session b0 refl three_state three-ReadsAs "running" 1
      running_entry refl refl none "stopped" null null refl refl
