-- ===== src/Fenced/Mutation/Fencing.antt =====
-- What a ticket call does on a disk that works: which fences are refused, and that a recovery shuts
-- out the fence before it.
use animus_queue_default.Common.{
  ℕ, ◌+◌, ◌≡◌, refl, String, true, false, Option, none, some, arith, u64, eqb, locate, locate_lem,
  set, holds, locate-set, is_blank, if◌then◌else◌, ◌<>◌, ok,
}
use animus_queue_default.Protocol.{
  SubjectGeneration, QueueLeaseFence, ExecutionFence, QueueLeaseMutationResponse, applied,
  not_assigned, stale_fence,
}
use animus_queue_default.State.{
  DispatchQueueEntry, DispatchQueueState, assigned, as_wire, status_eq,
}
use animus_queue_default.State.Entry.{execution_fence, lease_is_live}
use animus_queue_default.External.{External, World}
use animus_queue_default.Io.{Disk}
use animus_queue_default.Store.{acquire_queue_lock}
use animus_queue_default.Store.Loading.{
  with_entry, disk_with, with_entry-ReadsAs, IsSound, ReadsAs, save_queue_state_sound,
  load_queue_state-full,
}
use animus_queue_default.Service.Base.{load_or_default, commit}
use animus_queue_default.Service.Mutations.{has_id}
use animus_queue_default.History.{append_history}
use animus_queue_default.Fenced.Ticket.{mutation_response, exact_fence_matches, fence_parts_match}
use animus_queue_default.Fenced.Mutation.{
  FencedOperation, recover, mutate_live, mutate_located, mutate_lease, fenced_mutation,
  recovered_entry, apply_operation, save_entry,
}

abbrev pub refused : QueueLeaseMutationResponse
refused = mutation_response stale_fence none (some "execution fence does not own this queue lease")

-- What a call answers for an entry that its fence does not match.
abbrev pub refusal : DispatchQueueEntry → QueueLeaseMutationResponse
refusal entry =
    if status_eq entry.status assigned
    then refused
    else mutation_response not_assigned none (some ("queue entry is " <> as_wire entry.status))

module _ (x : External) where
  -- A call on a live entry of a disk that works is `mutate_live`.
  pub fenced_mutation-live :
      (w : World) (d : Disk) (state : DispatchQueueState)
      → ReadsAs w d state
      → (execution : ExecutionFence) (operation : FencedOperation) (lease : QueueLeaseFence)
      → execution.queue_lease ≡ some lease
      → (i : ℕ) (entry : DispatchQueueEntry)
      → locate (has_id lease.entry_id) state.entries ≡ some (i, entry)
      → fenced_mutation x w execution operation d
        ≡ mutate_live x w execution operation state i entry d
  unfolding fenced_mutation mutate_lease mutate_located acquire_queue_lock load_or_default
  fenced_mutation-live w d state r execution operation lease l i entry e = ground (
    arith,
    r.sound.locks,
    l,
    e,
    load_queue_state-full w d state r.sound.reads r.held r.current r.has_ids,
  )

  -- A fence that is not the ticket of the entry that it names changes nothing, whatever the
  -- operation: the answer is `stale_fence` if the entry runs, and `not_assigned` if it does not.
  pub fenced_mutation-refuses :
      (w : World) (d : Disk) (state : DispatchQueueState)
      → ReadsAs w d state
      → (execution : ExecutionFence) (operation : FencedOperation) (lease : QueueLeaseFence)
      → execution.queue_lease ≡ some lease
      → (i : ℕ) (entry : DispatchQueueEntry)
      → locate (has_id lease.entry_id) state.entries ≡ some (i, entry)
      → exact_fence_matches x entry execution ≡ false
      → fenced_mutation x w execution operation d ≡ (d, ok (refusal entry))
  unfolding mutate_live
  fenced_mutation-refuses w d state r execution operation lease l i entry e m =
      ground (arith, fenced_mutation-live w d state r execution operation lease l i entry e, m)

  counted_up : (n : ℕ) → eqb (u64 (n + 1)) n ≡ false
  counted_up n = ground arith

  recovered-fence_parts_match :
      (w : World) (owner : String) (ttl : ℕ) (entry : DispatchQueueEntry)
      → (execution : ExecutionFence)
      → (subject : Option SubjectGeneration) (lease : Option QueueLeaseFence)
      → fence_parts_match x entry execution subject lease ≡ true
      → fence_parts_match x (recovered_entry x w owner ttl entry) execution subject lease ≡ false
  unfolding fence_parts_match recovered_entry
  recovered-fence_parts_match w owner ttl entry execution none lease m = refl
  recovered-fence_parts_match w owner ttl entry execution (some subject) none m = refl
  recovered-fence_parts_match w owner ttl entry execution (some subject) (some lease) m =
      ground (arith, counted_up entry.lease_generation)

  -- A recovery counts up, so it leaves the fence before it behind.
  recovered-exact_fence_matches :
      (w : World) (owner : String) (ttl : ℕ) (entry : DispatchQueueEntry)
      → (execution : ExecutionFence) → exact_fence_matches x entry execution ≡ true
      → exact_fence_matches x (recovered_entry x w owner ttl entry) execution ≡ false
  unfolding exact_fence_matches
  recovered-exact_fence_matches w owner ttl entry execution m =
      recovered-fence_parts_match w owner ttl entry execution execution.subject
        execution.queue_lease m

  -- A recovery by another owner of a running entry whose lease has run out.
  pub record Recovers (w : World) (owner : String) (entry : DispatchQueueEntry) : Type 0 where
    pub runs : status_eq entry.status assigned ≡ true
    pub names_owner : is_blank owner ≡ false
    pub other_owner : holds entry.lease_owner owner ≡ false
    pub expired : lease_is_live entry w.now ≡ false

  recover-applied :
      (w : World) (d : Disk) (state : DispatchQueueState)
      → ReadsAs w d state
      → (execution : ExecutionFence) (lease : QueueLeaseFence) → execution.queue_lease ≡ some lease
      → (i : ℕ) (entry : DispatchQueueEntry)
      → locate (has_id lease.entry_id) state.entries ≡ some (i, entry)
      → exact_fence_matches x entry execution ≡ true
      → (owner : String) (ttl : ℕ) → Recovers w owner entry
      → let taken = recovered_entry x w owner ttl entry in
        fenced_mutation x w execution (recover owner ttl) d ≡ (
          disk_with d (with_entry state i taken),
          ok (mutation_response applied (execution_fence x taken) none),
        )
  unfolding mutate_live apply_operation save_entry commit append_history
  recover-applied w d state r execution lease l i entry e m owner ttl q = ground (
    arith,
    fenced_mutation-live w d state r execution (recover owner ttl) lease l i entry e,
    m,
    save_queue_state_sound w d
        (record state { entries = set state.entries i (recovered_entry x w owner ttl entry) })
        r.sound.saving,
    q.runs,
    q.names_owner,
    q.other_owner,
    q.expired,
  )

  -- On a disk that works, another owner recovers a running entry whose lease has run out: the
  -- recovery is applied, and any later call under the fence before it is answered `stale_fence`
  -- and leaves the disk as the recovery did.
  pub recover-shuts_out :
      (w later : World) (d : Disk) (state : DispatchQueueState)
      → ReadsAs w d state
      → IsSound later
      → (execution : ExecutionFence) (lease : QueueLeaseFence) → execution.queue_lease ≡ some lease
      → (i : ℕ) (entry : DispatchQueueEntry)
      → locate (has_id lease.entry_id) state.entries ≡ some (i, entry)
      → exact_fence_matches x entry execution ≡ true
      → (owner : String) (ttl : ℕ) → Recovers w owner entry
      → (operation : FencedOperation)
      → let taken = recovered_entry x w owner ttl entry in
        let d' = disk_with d (with_entry state i taken) in
        (fenced_mutation x w execution (recover owner ttl) d
          ≡ (d', ok (mutation_response applied (execution_fence x taken) none)))
        × (fenced_mutation x later execution operation d' ≡ (d', ok refused))
  unfolding recovered_entry
  recover-shuts_out w later d state r s execution lease l i entry e m owner ttl q operation =
      let taken = recovered_entry x w owner ttl entry in
      let here = locate_lem (has_id lease.entry_id) state.entries i entry e in
      (
        recover-applied w d state r execution lease l i entry e m owner ttl q,
        ground (
          arith,
          q.runs,
          fenced_mutation-refuses later (disk_with d (with_entry state i taken))
              (with_entry state i taken)
              (with_entry-ReadsAs w later d state r s i entry taken here.0 refl) execution operation
              lease l i taken
              (locate-set (has_id lease.entry_id) state.entries i entry taken e here.1)
              (recovered-exact_fence_matches w owner ttl entry execution m),
        ),
      )
