-- ===== src/Calls/Kept.antt =====
-- Invariants over any sequence of calls: what is to show of the changes that calls make to the
-- state, and that calls keep it then, whatever the disk and the clock do.
use animus_queue_default.Common.{
  ℕ, ◌≡◌, true, false, ok, some, String, Option, List, [], ◌∷◌, ◌++◌, get_elem?, set, remove_at,
  unwrap_or,
}
use animus_queue_default.State.{DispatchQueueEntry, assigned, status_eq}
use animus_queue_default.State.Entry.{is_ticketed}
use animus_queue_default.Store.Stored.{IsStable}
use animus_queue_default.Service.Lease.{lease_state}
use animus_queue_default.Service.Mutations.{released_entry}
use animus_queue_default.Fenced.Generation.{ensure_ticket_identity, next_subject_generation}
use animus_queue_default.Fenced.Request.{Enqueued}
use animus_queue_default.Fenced.Enqueue.{bind_key, new_entry}
use animus_queue_default.Fenced.Lease.{ticket_leased_entry}
use animus_queue_default.Fenced.Lease.Stored.{IsFree}
use animus_queue_default.Fenced.Mutation.Stored.{TicketChange}
use animus_queue_default.Protocol.{SubjectDispatch}
use animus_queue_default.State.{DispatchQueueState}
use animus_queue_default.State.Entry.{from_dispatch}
use animus_queue_default.Calls.{
  Call, enqueues, lists, leases, counts, next_deadlines, holds, releases, drops, releases_pending,
  reorders, marks_assigned, completes, enqueues_v2, leases_v2, renews, recovers, completes_v2,
  releases_pending_v2, after_call, after_calls,
}
use animus_queue_default.External.{External, World}
use animus_queue_default.Io.{Disk}
use animus_queue_default.Store.Stored.{Stored}
use animus_queue_default.Service.Base.{QueueBackend, sweep_expired_entries}
use animus_queue_default.Service.Mutations.{
  hold_entry, release_entry, mark_entry, hold, release, mark_assigned,
}
use animus_queue_default.Service.Mutations.Stored.{
  Keeps-mutate_entry, Keeps-drop_entry, Keeps-completion, Keeps-release_pending,
}
use animus_queue_default.Service.Enqueue.Stored.{Keeps-enqueue}
use animus_queue_default.Service.Lease.Stored.{Keeps-lease}
use animus_queue_default.Service.Listing.Stored.{Keeps-next_deadline, Keeps-list, Keeps-stats}
use animus_queue_default.Service.Reorder.{reordered}
use animus_queue_default.Service.Reorder.Stored.{Keeps-reorder}
use animus_queue_default.Fenced.Enqueue.Stored.{Keeps-enqueue_v2}
use animus_queue_default.Fenced.Lease.Stored.{Keeps-lease_v2}
use animus_queue_default.Fenced.Mutation.Stored.{
  Keeps-renew_lease, Keeps-recover_lease, Keeps-completion_v2, Keeps-release_pending_v2,
}

-- `I` lasts through each change that a call makes to the state.
pub record IsKept (x : External) (b : QueueBackend) (I : DispatchQueueState → Type 0) : Type 0 where
  pub sweep : (w : World) (s : DispatchQueueState) → I s → I (sweep_expired_entries x w.now s).0
  pub plain_add :
      (w : World) (dispatch : SubjectDispatch) (run_at : Option String) (expire : Option ℕ)
      → (s : DispatchQueueState) → I s
      → let swept = (sweep_expired_entries x w.now s).0 in
        I (record swept {
          entries = swept.entries ++ from_dispatch x w dispatch run_at expire ∷ [];
        })
  pub plain_lease :
      (w : World) (max : ℕ) (workflow_ids : Option (List String)) (exclude : List String)
      → (s : DispatchQueueState) → I s
      → I (lease_state x b w max workflow_ids exclude s).0
  pub held :
      (w : World) (s : DispatchQueueState) (i : ℕ) (old new : DispatchQueueEntry)
      → I s
      → get_elem? s.entries i ≡ some old
      → hold_entry x w old ≡ ok (new, true)
      → I (record s { entries = set s.entries i new })
  pub unheld :
      (s : DispatchQueueState) (i : ℕ) (old new : DispatchQueueEntry)
      → I s
      → get_elem? s.entries i ≡ some old
      → release_entry old ≡ ok (new, true)
      → I (record s { entries = set s.entries i new })
  pub marked :
      (w : World) (workflow_id : Option String)
      → (s : DispatchQueueState) (i : ℕ) (old new : DispatchQueueEntry) → I s
      → get_elem? s.entries i ≡ some old
      → mark_entry x b w workflow_id old ≡ ok (new, true)
      → I (record s { entries = set s.entries i new })
  pub removed :
      (s : DispatchQueueState) (i : ℕ) → I s → I (record s { entries = remove_at s.entries i })
  pub put_back :
      (w : World) (reason : String) (s : DispatchQueueState) (i : ℕ) (old : DispatchQueueEntry)
      → I s
      → get_elem? s.entries i ≡ some old
      → is_ticketed old ≡ false
      → I (record s { entries = set s.entries i (released_entry x w reason old) })
  pub sorted :
      (ids : List String) (s : DispatchQueueState)
      → I s
      → I (record s { entries = reordered ids s.entries })
  pub ticketed :
      (s : DispatchQueueState) (i : ℕ) (old : DispatchQueueEntry)
      → I s
      → get_elem? s.entries i ≡ some old
      → I (ensure_ticket_identity s i old).0
  pub key_bound :
      (w : World) (key : Option String) (hash : String) (s : DispatchQueueState) (i : ℕ)
      → (old : DispatchQueueEntry) → I s
      → I (record s {
        entries = set s.entries i (bind_key x w key hash (unwrap_or (get_elem? s.entries i) old));
      })
  pub ticket_add :
      (w : World) (request : Enqueued) (s : DispatchQueueState)
      → I s
      → let added = next_subject_generation s request.qualified_id in
        I (record added.0 { entries = added.0.entries ++ new_entry x w request added.1 ∷ [] })
  pub ticket_lease :
      (w : World) (s : DispatchQueueState) (i : ℕ) (old : DispatchQueueEntry)
      → (owner_id : String) (expires_at : ℕ) (workflow_id : String) → I s
      → get_elem? s.entries i ≡ some old
      → IsFree x s.entries old
      → I (record s {
        entries = set s.entries i (ticket_leased_entry x w owner_id expires_at workflow_id old);
      })
  pub ticket_change :
      (w : World) (s : DispatchQueueState) (i : ℕ) (old new : DispatchQueueEntry)
      → I s
      → get_elem? s.entries i ≡ some old
      → status_eq old.status assigned ≡ true
      → TicketChange x w old new
      → I (record s { entries = set s.entries i new })

module _ (x : External) (b : QueueBackend) (I : DispatchQueueState → Type 0)
    (H : Option (List ℕ) → Type 0) (stable : IsStable I H) (k : IsKept x b I) where
  after_call-Stored :
      (w : World) (call : Call) (d : Disk) → Stored I H d → Stored I H (after_call x b w call d)
  unfolding after_call hold release mark_assigned
  after_call-Stored w (enqueues dispatch run_at expire) d v =
      (Keeps-enqueue I H stable x w (k.plain_add w) dispatch run_at expire).at d v
  after_call-Stored w (lists filter limit offset) d v =
      (Keeps-list I H stable x w (k.sweep w) filter limit offset).at d v
  after_call-Stored w (leases max ids exclude) d v =
      (Keeps-lease I H stable x b w (k.plain_lease w) max ids exclude).at d v
  after_call-Stored w counts d v = (Keeps-stats I H stable x w (k.sweep w)).at d v
  after_call-Stored w next_deadlines d v = (Keeps-next_deadline I H stable x w (k.sweep w)).at d v
  after_call-Stored w (holds id) d v =
      (Keeps-mutate_entry I H stable w id (hold_entry x w) (k.held w)).at d v
  after_call-Stored w (releases id) d v =
      (Keeps-mutate_entry I H stable w id release_entry k.unheld).at d v
  after_call-Stored w (drops id) d v = (Keeps-drop_entry I H stable x w k.removed id).at d v
  after_call-Stored w (releases_pending id reason) d v =
      (Keeps-release_pending I H stable x w reason (k.put_back w reason) id).at d v
  after_call-Stored w (reorders ids) d v = (Keeps-reorder I H stable w ids (k.sorted ids)).at d v
  after_call-Stored w (marks_assigned id workflow) d v =
      (Keeps-mutate_entry I H stable w id (mark_entry x b w workflow) (k.marked w workflow)).at d v
  after_call-Stored w (completes id status ref workflow) d v =
      (Keeps-completion I H stable x w k.removed id status ref workflow).at d v
  after_call-Stored w (enqueues_v2 request) d v =
      (Keeps-enqueue_v2 I H stable x w (k.sweep w) k.ticketed (k.key_bound w) (k.ticket_add w)
          request).at
        d v
  after_call-Stored w (leases_v2 request) d v =
      (Keeps-lease_v2 I x w k.ticketed (k.ticket_lease w) H stable b (k.sweep w) request).at d v
  after_call-Stored w (renews request) d v =
      (Keeps-renew_lease I H stable x w (k.ticket_change w) k.removed b request).at d v
  after_call-Stored w (recovers request) d v =
      (Keeps-recover_lease I H stable x w (k.ticket_change w) k.removed b request).at d v
  after_call-Stored w (completes_v2 request) d v =
      (Keeps-completion_v2 I H stable x w (k.ticket_change w) k.removed request).at d v
  after_call-Stored w (releases_pending_v2 request) d v =
      (Keeps-release_pending_v2 I H stable x w (k.ticket_change w) k.removed request).at d v

  pub after_calls-Stored :
      (calls : List (World × Call)) (d : Disk) → Stored I H d → Stored I H (after_calls x b calls d)
  unfolding after_calls
  after_calls-Stored [] d v = v
  after_calls-Stored ((w, call) ∷ calls) d v =
      after_calls-Stored calls (after_call x b w call d) (after_call-Stored w call d v)
