-- ===== src/Examples/Tickets.antt =====
-- The theorems about tickets, on the queue of Examples: the calls of src/fenced_queue.rs.
use animus_queue_default.Fenced.Ticket.Issued.{execution_fence-matches}
use animus_queue_default.Common.{true, ◌≡◌, max, ok, ◌+◌, ◌*◌, refl, none}
use animus_queue_default.Protocol.{applied, already_applied}
use animus_queue_default.History.Record.{completed}
use animus_queue_default.Store.Loading.{disk_with, with_entry}
use animus_queue_default.State.Entry.{execution_fence, lease_is_live}
use animus_queue_default.Fenced.Ticket.{mutation_response, exact_fence_matches}
use animus_queue_default.Fenced.Mutation.{
  complete, recover, renew, release_pending, fenced_mutation, recovered_entry, renewed_entry,
  put_back_entry,
}
use animus_queue_default.Fenced.Mutation.Fencing.{
  refused, fenced_mutation-refuses, recover-shuts_out,
}
use animus_queue_default.Fenced.Mutation.Outcomes.{EndsAfter, renew-extends, release_pending-twice}
use animus_queue_default.Fenced.Mutation.Completion.{completed_disk, complete-twice}
use animus_queue_default.Io.Keeps.{Answers}
use animus_queue_default.Fenced.Lease.{lease_v2}
use animus_queue_default.Fenced.Lease.Bounds.{IsBounded, lease_v2-IsBounded}
use animus_queue_default.Examples.{
  running_entry, done_record, x0, w0, b0, three_state, three_disk, lease_request,
}
use animus_queue_default.Examples.Facts.{
  w_early, w_later, running_lease, running_fence, old_lease, old_fence, later-IsSound,
  three-ReadsAs, early-ReadsAs, running-matches, old-matches_not, running-Recovers, done-IsReadable,
}

fenced_mutation-refuses_example :
    fenced_mutation x0 w0 old_fence (complete completed) three_disk ≡ (three_disk, ok refused)
fenced_mutation-refuses_example =
    fenced_mutation-refuses x0 w0 three_disk three_state three-ReadsAs old_fence
      (complete completed) old_lease refl 1 running_entry refl old-matches_not

recover-shuts_out_example :
    let taken = recovered_entry x0 w0 "daemon2" 1800 running_entry in
    let d' = disk_with three_disk (with_entry three_state 1 taken) in
    (fenced_mutation x0 w0 running_fence (recover "daemon2" 1800) three_disk
      ≡ (d', ok (mutation_response applied (execution_fence x0 taken) none)))
    × (fenced_mutation x0 w_later running_fence (complete completed) d' ≡ (d', ok refused))
recover-shuts_out_example =
    recover-shuts_out x0 w0 w_later three_disk three_state three-ReadsAs later-IsSound running_fence
      running_lease refl 1 running_entry refl running-matches "daemon2" 1800 running-Recovers
      (complete completed)

renew-extends_example :
    let renewed = renewed_entry x0 w_early 1800 running_entry in
    (fenced_mutation x0 w_early running_fence (renew 1800) three_disk ≡ (
      disk_with three_disk (with_entry three_state 1 renewed),
      ok (mutation_response applied (execution_fence x0 renewed) none),
    ))
    × (exact_fence_matches x0 renewed running_fence ≡ true)
    × EndsAfter renewed (max 900 (500 + 1800 * 1000000000))
unfolding lease_is_live
renew-extends_example =
    renew-extends x0 w_early three_disk three_state early-ReadsAs running_fence running_lease refl 1
      running_entry refl running-matches refl 1800 900 refl refl

release_pending-twice_example :
    let d' =
      disk_with three_disk
        (with_entry three_state 1 (put_back_entry x0 w0 "stopped" running_entry)) in
    (fenced_mutation x0 w0 running_fence (release_pending "stopped") three_disk
      ≡ (d', ok (mutation_response applied none none)))
    × (fenced_mutation x0 w_later running_fence (release_pending "again") d'
        ≡ (d', ok (mutation_response already_applied none none)))
release_pending-twice_example =
    release_pending-twice x0 w0 three_disk three_state three-ReadsAs running_fence running_lease
      refl 1 running_entry refl running-matches refl w_later "stopped" "again" later-IsSound

complete-twice_example :
    let d' = completed_disk x0 w0 three_disk three_state 1 done_record in
    (fenced_mutation x0 w0 running_fence (complete completed) three_disk
      ≡ (d', ok (mutation_response applied (execution_fence x0 running_entry) none)))
    × (fenced_mutation x0 w_later running_fence (complete completed) d'
        ≡ (d', ok (mutation_response already_applied (execution_fence x0 running_entry) none)))
complete-twice_example =
    complete-twice x0 w0 three_disk three_state three-ReadsAs running_fence running_lease refl 1
      running_entry refl running-matches refl completed w_later later-IsSound refl done-IsReadable
      refl

lease_v2-IsBounded_example :
    Answers (IsBounded x0 w0 b0 lease_request) (lease_v2 x0 w0 b0 lease_request three_disk).1
lease_v2-IsBounded_example = lease_v2-IsBounded x0 w0 b0 lease_request three_disk

execution_fence-matches_example : exact_fence_matches x0 running_entry running_fence ≡ true
unfolding execution_fence
execution_fence-matches_example = execution_fence-matches x0 running_entry running_fence refl
