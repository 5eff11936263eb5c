-- ===== src/Examples/Adds.antt =====
-- The theorems about adds, on the queue of Examples: `queue/v2/enqueue` of src/fenced_queue.rs.
use animus_queue_default.Common.{is_whitespace, true, ◌≡◌, trim, ok, refl, false, none, some, arith}
use animus_queue_default.Store.Loading.{disk_with, with_entry}
use animus_queue_default.Common.{String, ◌==◌, ◌<◌, All, ℕ, zero, suc, ◌≤◌, ◌≢◌, get_elem?, ap, ◌∙◌}
use animus_queue_default.State.Entry.{expiry_deadline, parsed_run_at, bound_request_hash}
use animus_queue_default.Service.Base.{is_expired, sweep_entries, sweep_expired_entries}
use animus_queue_default.Fenced.Generation.{
  recorded_generation, live_generation, next_subject_generation, live_entry_for_subject,
  highest_ticketed, is_ticketed_for, is_waiting_for,
}
use animus_queue_default.Fenced.Generation.Fresh.{IsBelow, next_subject_generation-fresh}
use animus_queue_default.Fenced.Enqueue.{receipt, has_key, new_entry, enqueue_validated}
use animus_queue_default.Fenced.Enqueue.Idempotency.{
  subject_at, receipt_again, added_disk, enqueue-twice, enqueue_validated-replays,
}
use animus_queue_default.History.{find_history_by_idempotency_key, find_last}
use animus_queue_default.Identity.{canonical_subject_id}
use animus_queue_default.Identity.Canonical.{canonical_subject_id-again}
use animus_queue_default.Fenced.Generation.Newest.{IsNewest}
use animus_queue_default.State.{DispatchQueueEntry, unknown}
use mathlib.Core.Option.{some-injective}
use animus_queue_default.Fenced.Enqueue.Joining.{joined, bound_also, enqueue_validated-joins}
use animus_queue_default.Examples.{running_entry, x0, w0, three_entries, three_state}
use animus_queue_default.Examples.Facts.{w_later, later-IsSound}
use animus_queue_default.Examples.Small.{
  new_request, task_request, one_state, one_disk, one-ReadsAs, bound_entry, bound_state, bound_disk,
  bound-ReadsAs,
}

next_subject_generation-fresh_example :
    let (state', g) = next_subject_generation three_state "task:T2" in
    (recorded_generation "task:T2" three_state.subject_generations < g)
    × All (IsBelow "task:T2" g) three_entries
    × (recorded_generation "task:T2" state'.subject_generations ≡ g)
    × ((other : String)
        → ("task:T2" == other) ≡ false
        → recorded_generation other state'.subject_generations
          ≡ recorded_generation other three_state.subject_generations)
    × (state'.entries ≡ three_entries)
unfolding recorded_generation live_generation
next_subject_generation-fresh_example =
    next_subject_generation-fresh three_state "task:T2" (omega arith)

enqueue-twice_example :
    let g = (next_subject_generation one_state "task:T9").1 in
    let d' = added_disk x0 w0 new_request one_disk one_state in
    let subject = subject_at "task:T9" g in
    (enqueue_validated x0 w0 new_request one_disk ≡ (d', ok (receipt true "fresh" subject none)))
    × (enqueue_validated x0 w_later new_request d' ≡ (d', ok (receipt false "fresh" subject none)))
unfolding find_history_by_idempotency_key find_last trim is_whitespace sweep_expired_entries
    sweep_entries is_expired expiry_deadline parsed_run_at has_key bound_request_hash
    live_entry_for_subject highest_ticketed is_ticketed_for is_waiting_for new_entry
    next_subject_generation
enqueue-twice_example =
    enqueue-twice x0 w0 w_later one_disk one_state one-ReadsAs later-IsSound refl new_request "key"
      refl refl refl refl refl refl

enqueue_validated-replays_example :
    enqueue_validated x0 w0 new_request bound_disk
    ≡ (bound_disk, ok (receipt_again bound_entry "task:T9" 1))
unfolding sweep_expired_entries sweep_entries is_expired expiry_deadline parsed_run_at has_key
    bound_request_hash new_entry
enqueue_validated-replays_example =
    enqueue_validated-replays x0 w0 bound_disk bound_state bound-ReadsAs refl new_request "key" refl
      bound_entry "task:T9" 1 refl refl refl refl

canonical_subject_id-again_example : canonical_subject_id "animus.task" "task:T1" ≡ ok "task:T1"
unfolding canonical_subject_id trim is_whitespace
canonical_subject_id-again_example =
    canonical_subject_id-again "animus.task" " TASK:T1" "task:T1" refl

-- The queue has no other entry.
only :
    (j : ℕ) (other : DispatchQueueEntry) (k : ℕ)
    → get_elem? one_state.entries j ≡ some other
    → other.status ≢ unknown
    → other.subject_id ≡ some "task:T2"
    → other.subject_generation ≡ some k
    → (k ≤ 4) × (0 < j → k < 4)
only zero other k e known mine ticket =
    let same = some-injective _ _ e in
    (
      ground (arith, some-injective _ _ (ap (λ o. o.subject_generation) same ∙ ticket)),
      λ l. absurd (omega arith),
    )
only (suc j) other k e known mine ticket = absurd (ground arith)

task-IsNewest : IsNewest "task:T2" one_state.entries 0 running_entry 4
task-IsNewest = record {
  at = refl;
  known = λ e. ground arith;
  of_subject = refl;
  ticket = refl;
  newest = only;
}

enqueue_validated-joins_example : enqueue_validated x0 w0 task_request one_disk ≡ (
  disk_with one_disk (with_entry one_state 0 (bound_also "key" "hash" running_entry)),
  ok (joined task_request running_entry 4),
)
unfolding sweep_expired_entries sweep_entries is_expired has_key bound_request_hash
    find_history_by_idempotency_key find_last
enqueue_validated-joins_example =
    enqueue_validated-joins x0 w0 one_disk one_state one-ReadsAs refl task_request "key" refl refl
      refl 0 running_entry 4 task-IsNewest
