-- ===== src/Examples/Queue.antt =====
-- The theorems about the calls of src/queue_service.rs, about sequences of calls and about the
-- settings, on the queue of Examples.
use animus_queue_default.Service.Listing.{earliest}
use animus_queue_default.Service.Listing.Deadlines.{IsDueAt, IsBy, earliest-minimal}
use animus_queue_default.External.{External}
use mathlib.Core.List.{Perm}
use animus_queue_default.Common.{
  is_whitespace, true, ◌≡◌, ◌+◌, trim, ok, refl, false, none, some, [], ◌∷◌, arith,
}
use animus_queue_default.State.{DispatchQueueEntry}
use animus_queue_default.State.Entry.{is_ticketed}
use animus_queue_default.Service.Reorder.{reordered}
use animus_queue_default.Service.Reorder.Permutes.{reordered-perm}
use animus_queue_default.Store.Stored.{Stored, AnyHistory}
use animus_queue_default.Common.{ℕ, ◌≤◌}
use animus_queue_default.Service.Base.{response, sweep_entries, sweep_expired_entries}
use animus_queue_default.Service.Sweep.{IsSwept, sweep_entries-IsSwept}
use animus_queue_default.Service.Mutations.{hold, release}
use animus_queue_default.Service.Mutations.Holding.{hold-release}
use animus_queue_default.HostGuard.{check_host, check_host-upward, parse_version, is_accepted}
use animus_queue_default.LeaseTtl.{parse_lease_ttl, parse_lease_ttl-bounds}
use animus_queue_default.Common.{List, length, get_elem?, ◌++◌, err}
use animus_queue_default.Service.Base.{QueueMutationError, QueueReleasePendingError}
use animus_queue_default.Service.Lease.{lease_state}
use animus_queue_default.Service.Listing.{page, page_size}
use animus_queue_default.Service.Listing.Pages.{page-consecutive}
use animus_queue_default.Service.Mutations.{mark_assigned}
use animus_queue_default.Service.Mutations
use animus_queue_default.Service.Mutations.Refusals.{ticketed-refused}
use animus_queue_default.Branches.Plain.{lease_state-spares_ticketed}
use animus_queue_default.Calls.{after_calls}
use animus_queue_default.Branches.Changes.{Exclusive}
use animus_queue_default.Branches.Invariant.{after_calls-Exclusive}
use animus_queue_default.Examples.{
  plain_entry, running_entry, x0, w0, b0, waiting_entry, three_entries, three_state, three_disk,
}
use animus_queue_default.Examples.Facts.{
  three_state-Exclusive, two_calls, w_later, later-IsSound, three-ReadsAs,
}
use animus_queue_default.Examples.Small.{s0}

reordered-perm_example :
    Perm (reordered ("waiting" ∷ "plain" ∷ "waiting" ∷ "gone" ∷ []) three_entries) three_entries
reordered-perm_example =
    reordered-perm ("waiting" ∷ "plain" ∷ "waiting" ∷ "gone" ∷ []) three_entries

after_calls-Exclusive_example :
    Stored (Exclusive x0) AnyHistory (after_calls x0 b0 two_calls three_disk)
after_calls-Exclusive_example =
    after_calls-Exclusive x0 b0 two_calls three_disk (three_state-Exclusive, tt)

-- A minute's window that began at 1000 and has ended at 2000, and a running entry that looks alike.
abbrev x_window : External
x_window = record x0 {
  parse_from_rfc3339 = λ text. some 1000;
  checked_add_signed = λ at delta. some (at + 60);
}

abbrev late_entries : List DispatchQueueEntry
late_entries =
    record running_entry { run_at = some "then"; expire_after_secs = some 60 }
    ∷ record plain_entry { run_at = some "then"; expire_after_secs = some 60 }
    ∷ waiting_entry
    ∷ []

sweep_entries-IsSwept_example :
    let (kept, records) = sweep_entries x_window 2000 late_entries in
    IsSwept x_window 2000 late_entries kept records
sweep_entries-IsSwept_example = sweep_entries-IsSwept x_window 2000 late_entries

hold-release_example :
    let d' = (hold x0 w0 "plain" three_disk).0 in
    ((hold x0 w0 "plain" three_disk).1 ≡ ok (response true false))
    × (release w_later "plain" d' ≡ (three_disk, ok (response true false)))
hold-release_example =
    hold-release x0 w0 w_later three_disk three_state three-ReadsAs later-IsSound "plain" 0
      plain_entry refl (record { waits = refl; unheld = refl })

check_host-upward_example : check_host s0 "1.0.0" (some "1.2.0") (some "0.7.0") ≡ ok tt
unfolding parse_version trim is_whitespace check_host is_accepted
check_host-upward_example =
    check_host-upward s0 "1.0.0" (λ u v w h k. ground arith) (some "1.1.0") (some "1.2.0")
      (some "0.7.0") (some "0.7.0") refl refl refl

parse_lease_ttl-bounds_example :
    (1 ≤ parse_lease_ttl (some " 604801 ")) × (parse_lease_ttl (some " 604801 ") ≤ 604800)
parse_lease_ttl-bounds_example = parse_lease_ttl-bounds (some " 604801 ")

lease_state-spares_ticketed_example :
    let swept = (sweep_expired_entries x0 w0.now three_state).0.entries in
    let (state, leased, records) = lease_state x0 b0 w0 1 none [] three_state in
    (length leased ≤ 1)
    × ((j : ℕ) (entry : DispatchQueueEntry)
        → get_elem? swept j ≡ some entry
        → is_ticketed entry ≡ true
        → get_elem? state.entries j ≡ some entry)
lease_state-spares_ticketed_example = lease_state-spares_ticketed x0 b0 w0 1 none [] three_state

ticketed-refused_example :
    (mark_assigned x0 b0 w0 "running" none three_disk
      ≡ (three_disk, err (QueueMutationError.fenced "running")))
    × (Mutations.release_pending x0 w0 "running" "stopped" three_disk
        ≡ (three_disk, err (QueueReleasePendingError.fenced "running")))
unfolding is_ticketed
ticketed-refused_example =
    ticketed-refused x0 b0 w0 three_disk three_state three-ReadsAs "running" 1 running_entry refl
      refl none "stopped"

page-consecutive_example :
    page x0 w0 (some 1) (some 1) three_entries ++ page x0 w0 none (some 2) three_entries
    ≡ running_entry ∷ waiting_entry ∷ []
unfolding page_size
page-consecutive_example = page-consecutive x0 w0 (some 1) none 1 three_entries

-- Every instant's text is read as 5000.
abbrev x_clock : External
x_clock = record x0 { parse_from_rfc3339 = λ text. some 5000 }

abbrev deferred_entries : List DispatchQueueEntry
deferred_entries = running_entry ∷ record plain_entry { run_at = some "later" } ∷ []

earliest-minimal_example :
    ((m : ℕ)
      → earliest x_clock w0 deferred_entries ≡ some m
      → IsDueAt x_clock w0 deferred_entries m)
    × ((t : ℕ)
        → IsDueAt x_clock w0 deferred_entries t
        → IsBy x_clock w0 (earliest x_clock w0 deferred_entries) t)
earliest-minimal_example = earliest-minimal x_clock w0 deferred_entries
