-- ===== src/Fenced/Mutation/Stored.antt =====
-- Invariants of the stored state through the four ticket calls.
use animus_queue_default.Common.{
  ℕ, ◌≡◌, refl, String, true, ◌&&◌, not, Option, none, some, [], locate, locate_lem, get_elem?, set,
  remove_at, is_blank, holds, arith, List,
}
use animus_queue_default.Protocol.{
  QueueLeaseFence, ExecutionFence, QueueLeaseRenewRequest, QueueLeaseRecoverRequest,
  QueueCompletionV2Request, QueueReleasePendingV2Request,
}
use animus_queue_default.State.{
  DispatchQueueEntry, DispatchQueueState, pending, assigned, status_eq,
}
use animus_queue_default.State.Entry.{lease_is_live}
use animus_queue_default.History.{find_history_by_entry_id}
use animus_queue_default.History.Record.{HistoryOutcome, from_completion_status}
use animus_queue_default.External.{External, World}
use animus_queue_default.Io.Keeps.{Keeps, Keeps-bind, Keeps-lift, Keeps-pure, Keeps-raise, Keeps-if}
use animus_queue_default.Store.Stored.{IsStable, Stored, Keeps-acquire}
use animus_queue_default.Service.Base.{QueueBackend, QueueCallError}
use animus_queue_default.Service.Stored.{Keeps-commit, Keeps-default_bind}
use animus_queue_default.Service.Mutations.{has_id}
use animus_queue_default.Fenced.Ticket.{exact_fence_matches}
use animus_queue_default.Fenced.Mutation.{
  FencedOperation, renew, recover, complete, release_pending, is_release, recovered_entry,
  renewed_entry, put_back_entry, save_entry, apply_operation, mutate_live, finished_entry_outcome,
  mutate_located, mutate_lease, fenced_mutation, check_valid, complete_with, completion_v2,
  release_pending_v2, renew_lease, recover_lease,
}

-- The three ways in which a ticket call changes an entry that stays.
pub data TicketChange (x : External) (w : World) (old : DispatchQueueEntry)
    : DispatchQueueEntry → Type 0 where
  recovers : (owner : String) (ttl : ℕ) → TicketChange x w old (recovered_entry x w owner ttl old)
  renews : (ttl : ℕ) → TicketChange x w old (renewed_entry x w ttl old)
  puts_back : (reason : String) → TicketChange x w old (put_back_entry x w reason old)

module _ (I : DispatchQueueState → Type 0) (H : Option (List ℕ) → Type 0) (stable : IsStable I H)
    (x : External) (w : World)
    (keep_set : (s : DispatchQueueState) (i : ℕ) (old new : DispatchQueueEntry)
      → I s
      → get_elem? s.entries i ≡ some old
      → status_eq old.status assigned ≡ true
      → TicketChange x w old new
      → I (record s { entries = set s.entries i new }))
    (keep_remove : (s : DispatchQueueState) (i : ℕ)
      → I s
      → I (record s { entries = remove_at s.entries i })) where
  module _ (s : DispatchQueueState) (i : ℕ) (old : DispatchQueueEntry) (v : I s)
      (at : get_elem? s.entries i ≡ some old) where
    Keeps-save_entry :
        {new : DispatchQueueEntry} (fence : Option ExecutionFence)
        → status_eq old.status assigned ≡ true
        → TicketChange x w old new
        → Keeps (Stored I H) (save_entry x w s i new fence)
    unfolding save_entry
    Keeps-save_entry {new} fence runs c =
        Keeps-bind _ _
          (Keeps-lift QueueCallError.backend _
            (Keeps-commit x I H stable w _ [] (keep_set s i old new v at runs c)))
          (λ _. Keeps-pure _)

    Keeps-apply_operation :
        (operation : FencedOperation)
        → status_eq old.status assigned ≡ true
        → Keeps (Stored I H) (apply_operation x w s i old operation)
    unfolding apply_operation
    Keeps-apply_operation (recover owner ttl) runs =
        Keeps-if (is_blank owner) _ _ (λ _. Keeps-raise _)
          (λ _.
            Keeps-if (holds old.lease_owner owner) _ _ (λ _. Keeps-raise _)
              (λ _.
                Keeps-if (lease_is_live old w.now) _ _ (λ _. Keeps-pure _)
                  (λ _. Keeps-save_entry _ runs (recovers owner ttl))))
    Keeps-apply_operation (renew ttl) runs =
        Keeps-if (not (lease_is_live old w.now)) _ _ (λ _. Keeps-pure _)
          (λ _. Keeps-save_entry _ runs (renews ttl))
    Keeps-apply_operation (complete outcome) runs =
        Keeps-bind _ _
          (Keeps-lift QueueCallError.backend _
            (Keeps-commit x I H stable w _ _ (keep_remove s i v)))
          (λ _. Keeps-pure _)
    Keeps-apply_operation (release_pending reason) runs = Keeps-save_entry _ runs (puts_back reason)

    Keeps-mutate_live :
        (execution : ExecutionFence) (operation : FencedOperation)
        → Keeps (Stored I H) (mutate_live x w execution operation s i old)
    unfolding mutate_live
    Keeps-mutate_live execution operation =
        Keeps-if
          (is_release operation
            && status_eq old.status pending
            && exact_fence_matches x old execution)
          _ _ (λ _. Keeps-pure _)
          (λ _.
            Keeps-if (not (status_eq old.status assigned)) _ _ (λ _. Keeps-pure _)
              (λ runs.
                Keeps-if (not (exact_fence_matches x old execution)) _ _ (λ _. Keeps-pure _)
                  (λ _. Keeps-apply_operation operation (ground arith))))

  Keeps-find : (entry_id : String) → Keeps (Stored I H) (find_history_by_entry_id x w entry_id)
  unfolding find_history_by_entry_id
  Keeps-find entry_id = record { at = λ d h. ground arith }

  Keeps-finished :
      (entry_id : String) (execution : ExecutionFence) (operation : FencedOperation)
      → Keeps (Stored I H) (finished_entry_outcome x w entry_id execution operation)
  unfolding finished_entry_outcome
  Keeps-finished entry_id execution operation =
      Keeps-bind _ _ (Keeps-lift QueueCallError.backend _ (Keeps-find entry_id)) (λ _. Keeps-pure _)

  Keeps-mutate_located :
      (entry_id : String) (execution : ExecutionFence) (operation : FencedOperation)
      → (s : DispatchQueueState) → I s
      → (found : Option (ℕ × DispatchQueueEntry)) → locate (has_id entry_id) s.entries ≡ found
      → Keeps (Stored I H) (mutate_located x w entry_id execution operation s found)
  unfolding mutate_located
  Keeps-mutate_located entry_id execution operation s v none l =
      Keeps-finished entry_id execution operation
  Keeps-mutate_located entry_id execution operation s v (some (i, old)) l =
      Keeps-mutate_live s i old v (locate_lem (has_id entry_id) s.entries i old l).0 execution
        operation

  Keeps-mutate_lease :
      (lease : Option QueueLeaseFence) (execution : ExecutionFence) (operation : FencedOperation)
      → Keeps (Stored I H) (mutate_lease x w lease execution operation)
  unfolding mutate_lease
  Keeps-mutate_lease none execution operation = Keeps-raise _
  Keeps-mutate_lease (some lease) execution operation =
      Keeps-bind _ _ (Keeps-lift QueueCallError.backend _ (Keeps-acquire I H w)) (λ _.
        Keeps-default_bind I H stable QueueCallError.backend w _ (λ s v.
          Keeps-mutate_located lease.entry_id execution operation s v
            (locate (has_id lease.entry_id) s.entries) refl))

  pub Keeps-fenced_mutation :
      (execution : ExecutionFence) (operation : FencedOperation)
      → Keeps (Stored I H) (fenced_mutation x w execution operation)
  unfolding fenced_mutation
  Keeps-fenced_mutation execution operation =
      Keeps-mutate_lease execution.queue_lease execution operation

  Keeps-check_valid : (error : Option String) → Keeps (Stored I H) (check_valid x w error)
  unfolding check_valid
  Keeps-check_valid none = Keeps-pure _
  Keeps-check_valid (some message) = Keeps-raise _

  Keeps-complete_with :
      (execution : ExecutionFence) (outcome : Option HistoryOutcome)
      → Keeps (Stored I H) (complete_with x w execution outcome)
  unfolding complete_with
  Keeps-complete_with execution none = Keeps-raise _
  Keeps-complete_with execution (some outcome) = Keeps-fenced_mutation execution (complete outcome)

  pub Keeps-completion_v2 :
      (request : QueueCompletionV2Request) → Keeps (Stored I H) (completion_v2 x w request)
  unfolding completion_v2
  Keeps-completion_v2 request =
      Keeps-bind _ _ (Keeps-check_valid _)
        (λ _. Keeps-complete_with request.execution (from_completion_status request.status))

  pub Keeps-release_pending_v2 :
      (request : QueueReleasePendingV2Request) → Keeps (Stored I H) (release_pending_v2 x w request)
  unfolding release_pending_v2
  Keeps-release_pending_v2 request =
      Keeps-bind _ _ (Keeps-check_valid _) (λ _. Keeps-fenced_mutation request.execution _)

  pub Keeps-renew_lease :
      (b : QueueBackend) (request : QueueLeaseRenewRequest)
      → Keeps (Stored I H) (renew_lease x w b request)
  unfolding renew_lease
  Keeps-renew_lease b request =
      Keeps-bind _ _ (Keeps-check_valid _) (λ _. Keeps-fenced_mutation request.execution _)

  pub Keeps-recover_lease :
      (b : QueueBackend) (request : QueueLeaseRecoverRequest)
      → Keeps (Stored I H) (recover_lease x w b request)
  unfolding recover_lease
  Keeps-recover_lease b request =
      Keeps-bind _ _ (Keeps-check_valid _) (λ _. Keeps-fenced_mutation request.execution _)
