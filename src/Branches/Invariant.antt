-- ===== src/Branches/Invariant.antt =====
-- The exclusive use of branches over any sequence of calls, whatever the disk and the clock do.
use animus_queue_default.Common.{ℕ, refl, String, Option, List, [], ◌∷◌, ◌++◌, arith}
use animus_queue_default.Protocol.{SubjectDispatch}
use animus_queue_default.State.{DispatchQueueState}
use animus_queue_default.State.Entry.{from_dispatch}
use animus_queue_default.Calls.{Call, after_calls}
use animus_queue_default.Calls.Kept.{IsKept, after_calls-Stored}
use animus_queue_default.External.{External, World}
use animus_queue_default.Io.{Disk}
use animus_queue_default.Store.Stored.{Stored, AnyHistory}
use animus_queue_default.Service.Base.{QueueBackend, sweep_expired_entries}
use animus_queue_default.Service.Reorder.{reordered}
use animus_queue_default.Service.Reorder.Permutes.{count-reordered, All-reordered}
use animus_queue_default.Fenced.Ticket.{is_running_on}
use animus_queue_default.Branches.Counting.{IsTicketedOnly}
use animus_queue_default.Branches.Changes.{
  Exclusive, Exclusive-stable, append-IsExclusive, remove_at-IsExclusive, sweep-IsExclusive,
}
use animus_queue_default.Branches.OldStyle.{
  hold-IsExclusive, release-IsExclusive, mark-IsExclusive, released-IsExclusive,
}
use animus_queue_default.Branches.Chosen.{lease_state-Exclusive}
use animus_queue_default.Branches.Ticketed.{
  change-Exclusive, lease-Exclusive, ticket-Exclusive, key-Exclusive, add-Exclusive,
}

module _ (x : External) (b : QueueBackend) where
  sweep_keeps :
      (w : World) (s : DispatchQueueState)
      → Exclusive x s
      → Exclusive x (sweep_expired_entries x w.now s).0
  unfolding sweep_expired_entries
  sweep_keeps w s v = sweep-IsExclusive x v w.now

  enqueue_keeps :
      (w : World) (dispatch : SubjectDispatch) (run_at : Option String) (expire : Option ℕ)
      → (s : DispatchQueueState) → Exclusive x s
      → let swept = (sweep_expired_entries x w.now s).0 in
        Exclusive x (record swept {
          entries = swept.entries ++ from_dispatch x w dispatch run_at expire ∷ [];
        })
  unfolding from_dispatch is_running_on
  enqueue_keeps w dispatch run_at expire s v =
      append-IsExclusive x (sweep_keeps w s v) _ (λ e. cc) (λ key. refl)

  reorder_keeps :
      (ids : List String) (s : DispatchQueueState)
      → Exclusive x s
      → Exclusive x (record s { entries = reordered ids s.entries })
  reorder_keeps ids s v = record {
    ticketed_only = All-reordered IsTicketedOnly ids s.entries v.ticketed_only;
    exclusive =
        λ key. omega (arith, count-reordered (is_running_on x key) ids s.entries, v.exclusive key);
  }

  -- No change that a call makes puts two running entries on one branch.
  Exclusive-IsKept : IsKept x b (Exclusive x)
  Exclusive-IsKept = record {
    sweep = sweep_keeps;
    plain_add = enqueue_keeps;
    plain_lease = λ w. lease_state-Exclusive x b w;
    held = λ w s i old new v e m. hold-IsExclusive x v w i old new e m;
    unheld = λ s i old new v e m. release-IsExclusive x v i old new e m;
    marked = λ w workflow s i old new v e m. mark-IsExclusive x v b w workflow i old new e m;
    removed = λ s i v. remove_at-IsExclusive x v i;
    put_back = λ w reason s i old v e plain. released-IsExclusive x v w reason i old e plain;
    sorted = reorder_keeps;
    ticketed = ticket-Exclusive x;
    key_bound = key-Exclusive x;
    ticket_add = add-Exclusive x;
    ticket_lease = lease-Exclusive x;
    ticket_change = change-Exclusive x;
  }

  -- After any calls, with any failures of the disk in between, from a disk on which it was so: at
  -- most one entry that `queue.json` holds runs on a branch, and old-style entries reserve none.
  pub after_calls-Exclusive :
      (calls : List (World × Call)) (d : Disk)
      → Stored (Exclusive x) AnyHistory d
      → Stored (Exclusive x) AnyHistory (after_calls x b calls d)
  after_calls-Exclusive =
      after_calls-Stored x b (Exclusive x) AnyHistory (Exclusive-stable x) Exclusive-IsKept
