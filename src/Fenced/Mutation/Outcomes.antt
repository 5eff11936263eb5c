-- ===== src/Fenced/Mutation/Outcomes.antt =====
-- Renewals and put-backs on a disk that works, and the same call once more.
use animus_queue_default.Common.{
  ℕ, ◌≤◌, ◌≡◌, refl, String, true, Option, none, some, arith, locate, locate_lem, locate-set, set,
  ok, max,
}
use animus_queue_default.Protocol.{
  SubjectGeneration, QueueLeaseFence, ExecutionFence, applied, already_applied,
}
use animus_queue_default.State.{DispatchQueueEntry, DispatchQueueState, assigned, status_eq}
use animus_queue_default.State.Entry.{execution_fence, lease_is_live}
use animus_queue_default.External.{External, World}
use animus_queue_default.Io.{Disk}
use animus_queue_default.History.{append_history}
use animus_queue_default.Store.Loading.{
  with_entry, disk_with, with_entry-ReadsAs, IsSound, ReadsAs, save_queue_state_sound,
}
use animus_queue_default.Service.Base.{commit}
use animus_queue_default.Service.Mutations.{has_id}
use animus_queue_default.Fenced.Ticket.{mutation_response, exact_fence_matches, fence_parts_match}
use animus_queue_default.Fenced.Mutation.{
  renew, release_pending, mutate_live, apply_operation, save_entry, fenced_mutation, renewed_entry,
  put_back_entry, later_expiry,
}
use animus_queue_default.Fenced.Mutation.Fencing.{fenced_mutation-live}

-- The lease ends no earlier than before, and no earlier than the renewal asks.
abbrev pub EndsAfter : DispatchQueueEntry → ℕ → Type 0
EndsAfter entry instant =
    (expires_at : ℕ) × (entry.lease_expires_at ≡ some expires_at) × (instant ≤ expires_at)

module _ (x : External) where
  -- The expiry, the status and the audit log are no part of a ticket.
  renewed-fence_parts_match :
      (w : World) (ttl : ℕ) (entry : DispatchQueueEntry) (execution : ExecutionFence)
      → (subject : Option SubjectGeneration) (lease : Option QueueLeaseFence)
      → fence_parts_match x (renewed_entry x w ttl entry) execution subject lease
        ≡ fence_parts_match x entry execution subject lease
  unfolding fence_parts_match renewed_entry
  renewed-fence_parts_match w ttl entry execution none lease = refl
  renewed-fence_parts_match w ttl entry execution (some subject) none = refl
  renewed-fence_parts_match w ttl entry execution (some subject) (some lease) = refl

  put_back-fence_parts_match :
      (w : World) (reason : String) (entry : DispatchQueueEntry) (execution : ExecutionFence)
      → (subject : Option SubjectGeneration) (lease : Option QueueLeaseFence)
      → fence_parts_match x (put_back_entry x w reason entry) execution subject lease
        ≡ fence_parts_match x entry execution subject lease
  unfolding fence_parts_match put_back_entry
  put_back-fence_parts_match w reason entry execution none lease = refl
  put_back-fence_parts_match w reason entry execution (some subject) none = refl
  put_back-fence_parts_match w reason entry execution (some subject) (some lease) = refl

  renewed-EndsAfter :
      (w : World) (ttl old : ℕ) (entry : DispatchQueueEntry)
      → entry.lease_expires_at ≡ some old
      → EndsAfter (renewed_entry x w ttl entry) (max old (x.add_seconds w.now ttl))
  unfolding renewed_entry later_expiry
  renewed-EndsAfter w ttl old entry e =
      (max old (x.add_seconds w.now ttl), ground (arith, e), omega arith)

  module _ (w : World) (d : Disk) (state : DispatchQueueState) (r : ReadsAs w d state)
      (execution : ExecutionFence) (lease : QueueLeaseFence)
      (l : execution.queue_lease ≡ some lease) (i : ℕ) (entry : DispatchQueueEntry)
      (e : locate (has_id lease.entry_id) state.entries ≡ some (i, entry))
      (m : exact_fence_matches x entry execution ≡ true)
      (runs : status_eq entry.status assigned ≡ true) where
    -- On a disk that works, the holder of a running entry's ticket whose lease ends at `old`, in
    -- the future, renews it: the renewal is applied, the entry on the disk is still matched by the
    -- same fence, and its lease ends no earlier than `old` and than the length asked for from now.
    pub renew-extends :
        (ttl old : ℕ)
        → entry.lease_expires_at ≡ some old
        → lease_is_live entry w.now ≡ true
        → let renewed = renewed_entry x w ttl entry in
          (fenced_mutation x w execution (renew ttl) d ≡ (
            disk_with d (with_entry state i renewed),
            ok (mutation_response applied (execution_fence x renewed) none),
          ))
          × (exact_fence_matches x renewed execution ≡ true)
          × EndsAfter renewed (max old (x.add_seconds w.now ttl))
    unfolding mutate_live apply_operation save_entry commit append_history exact_fence_matches
    renew-extends ttl old q live =
        let renewed = renewed_entry x w ttl entry in
        (
          ground (
            arith,
            fenced_mutation-live x w d state r execution (renew ttl) lease l i entry e,
            m,
            runs,
            live,
            save_queue_state_sound w d (record state { entries = set state.entries i renewed })
                r.sound.saving,
          ),
          ground (
            arith,
            m,
            renewed-fence_parts_match w ttl entry execution execution.subject execution.queue_lease,
          ),
          renewed-EndsAfter w ttl old entry q,
        )

    -- On a disk that works, the holder of a running entry's ticket puts it back, and then makes
    -- the same call again: the first is applied, the second is answered `already_applied` and
    -- leaves the disk as it is.
    pub release_pending-twice :
        (later : World) (reason again : String)
        → IsSound later
        → let d' = disk_with d (with_entry state i (put_back_entry x w reason entry)) in
          (fenced_mutation x w execution (release_pending reason) d
            ≡ (d', ok (mutation_response applied none none)))
          × (fenced_mutation x later execution (release_pending again) d'
              ≡ (d', ok (mutation_response already_applied none none)))
    unfolding mutate_live apply_operation save_entry commit append_history exact_fence_matches
        put_back_entry
    release_pending-twice later reason again s =
        let back = put_back_entry x w reason entry in
        let here = locate_lem (has_id lease.entry_id) state.entries i entry e in
        let state' = with_entry state i back in
        (
          ground (
            arith,
            fenced_mutation-live x w d state r execution (release_pending reason) lease l i entry e,
            m,
            runs,
            save_queue_state_sound w d (record state { entries = set state.entries i back })
                r.sound.saving,
          ),
          ground (
            arith,
            fenced_mutation-live x later (disk_with d state') state'
                (with_entry-ReadsAs w later d state r s i entry back here.0 refl) execution
                (release_pending again) lease l i back
                (locate-set (has_id lease.entry_id) state.entries i entry back e here.1),
            m,
            put_back-fence_parts_match w reason entry execution execution.subject
                execution.queue_lease,
          ),
        )
