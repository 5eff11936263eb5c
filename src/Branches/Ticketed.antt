-- ===== src/Branches/Ticketed.antt =====
-- The exclusive use of branches through the changes that the ticketed calls make.
use animus_queue_default.Common.{
  ℕ, ◌≡◌, refl, String, true, eq_iff, Option, none, some, [], ◌∷◌, ◌++◌, arith, get_elem?, set,
  set_beyond, unwrap_or, subst, Option-cases, inl, inr, Result, ok, err,
}
use animus_queue_default.Protocol.{SubjectDispatch}
use animus_queue_default.State.{DispatchQueueEntry, DispatchQueueState, assigned, status_eq}
use animus_queue_default.State.Entry.{is_ticketed}
use animus_queue_default.External.{External, World}
use animus_queue_default.Fenced.Generation.{
  ticket_canonical, ticket_dispatch, ensure_parts, ensure_ticket_identity, next_subject_generation,
}
use animus_queue_default.Fenced.Request.{Enqueued}
use animus_queue_default.Fenced.Enqueue.{bind_key, new_entry}
use animus_queue_default.Fenced.Lease.{ticket_leased_entry}
use animus_queue_default.Fenced.Lease.Stored.{IsFree}
use animus_queue_default.Fenced.Mutation.{recovered_entry, renewed_entry, put_back_entry}
use animus_queue_default.Fenced.Mutation.Stored.{TicketChange, recovers, renews, puts_back}
use animus_queue_default.Fenced.Ticket.{is_running_on, reserves}
use animus_queue_default.Branches.Counting.{running, running_entry_on_branch-none}
use animus_queue_default.Branches.Changes.{
  Exclusive, set-IsExclusive, set_free-IsExclusive, append-IsExclusive,
}
use animus_queue_default.Branches.OldStyle.{IsTicketedOnly-at}

module _ (x : External) where
  pub change-Exclusive :
      (w : World) (s : DispatchQueueState) (i : ℕ) (old new : DispatchQueueEntry)
      → Exclusive x s
      → get_elem? s.entries i ≡ some old
      → status_eq old.status assigned ≡ true
      → TicketChange x w old new
      → Exclusive x (record s { entries = set s.entries i new })
  unfolding recovered_entry renewed_entry put_back_entry is_ticketed is_running_on
  change-Exclusive w s i old new v e runs (recovers owner ttl) =
      set-IsExclusive x v i old _ e (IsTicketedOnly-at x v i old e) (λ key r. r)
  change-Exclusive w s i old new v e runs (renews ttl) =
      set-IsExclusive x v i old _ e (IsTicketedOnly-at x v i old e) (λ key r. r)
  change-Exclusive w s i old new v e runs (puts_back reason) =
      set-IsExclusive x v i old _ e (IsTicketedOnly-at x v i old e) (λ key r. cc)

  -- A hand-out starts to run on a branch only if nothing runs there.
  pub lease-Exclusive :
      (w : World) (s : DispatchQueueState) (i : ℕ) (old : DispatchQueueEntry)
      → (owner_id : String) (expires_at : ℕ) (workflow_id : String) → Exclusive x s
      → get_elem? s.entries i ≡ some old
      → IsFree x s.entries old
      → Exclusive x (record s {
        entries = set s.entries i (ticket_leased_entry x w owner_id expires_at workflow_id old);
      })
  unfolding ticket_leased_entry is_ticketed is_running_on reserves
  lease-Exclusive w s i old owner expires workflow v e (inl unreserved) =
      set_free-IsExclusive x v i old _ e (IsTicketedOnly-at x v i old e) (λ key r. ground arith)
  lease-Exclusive w s i old owner expires workflow v e (inr (r, reserved, free)) =
      set_free-IsExclusive x v i old _ e (IsTicketedOnly-at x v i old e) λ key runs.
        subst (λ k. running x k s.entries ≡ 0) ((eq_iff (x.collision_key r) key).0 (ground arith))
          (running_entry_on_branch-none x (x.collision_key r) s.entries free)

  ticket_canonical-Exclusive :
      (s : DispatchQueueState) (i : ℕ) (old : DispatchQueueEntry) (r : Result String String)
      → Exclusive x s
      → get_elem? s.entries i ≡ some old
      → Exclusive x (ticket_canonical s i old r).0
  unfolding ticket_canonical is_ticketed is_running_on
  ticket_canonical-Exclusive s i old (err message) v e = v
  ticket_canonical-Exclusive s i old (ok id) v e =
      set-IsExclusive x v i old _ e (λ _. refl) (λ key runs. runs)

  ticket_dispatch-Exclusive :
      (s : DispatchQueueState) (i : ℕ) (old : DispatchQueueEntry) (d : Option SubjectDispatch)
      → Exclusive x s
      → get_elem? s.entries i ≡ some old
      → Exclusive x (ticket_dispatch s i old d).0
  unfolding ticket_dispatch
  ticket_dispatch-Exclusive s i old none v e = v
  ticket_dispatch-Exclusive s i old (some d) v e = ticket_canonical-Exclusive s i old _ v e

  ensure_parts-Exclusive :
      (s : DispatchQueueState) (i : ℕ) (old : DispatchQueueEntry) (g : Option ℕ)
      → (id : Option String) → Exclusive x s
      → get_elem? s.entries i ≡ some old
      → Exclusive x (ensure_parts s i old g id).0
  unfolding ensure_parts
  ensure_parts-Exclusive s i old (some g) (some id) v e = v
  ensure_parts-Exclusive s i old (some g) none v e =
      ticket_dispatch-Exclusive s i old old.dispatch v e
  ensure_parts-Exclusive s i old none id v e = ticket_dispatch-Exclusive s i old old.dispatch v e

  pub ticket-Exclusive :
      (s : DispatchQueueState) (i : ℕ) (old : DispatchQueueEntry)
      → Exclusive x s
      → get_elem? s.entries i ≡ some old
      → Exclusive x (ensure_ticket_identity s i old).0
  unfolding ensure_ticket_identity
  ticket-Exclusive s i old v e =
      ensure_parts-Exclusive s i old old.subject_generation old.subject_id v e

  bind_key-Exclusive :
      (w : World) (key : Option String) (hash : String) (s : DispatchQueueState) (i : ℕ)
      → (entry : DispatchQueueEntry) → Exclusive x s
      → get_elem? s.entries i ≡ some entry
      → Exclusive x (record s { entries = set s.entries i (bind_key x w key hash entry) })
  unfolding bind_key is_ticketed is_running_on
  bind_key-Exclusive w none hash s i entry v e =
      set-IsExclusive x v i entry _ e (IsTicketedOnly-at x v i entry e) (λ key r. r)
  bind_key-Exclusive w (some k) hash s i entry v e =
      set-IsExclusive x v i entry _ e (IsTicketedOnly-at x v i entry e) (λ key r. r)

  pub key-Exclusive :
      (w : World) (key : Option String) (hash : String) (s : DispatchQueueState) (i : ℕ)
      → (old : DispatchQueueEntry) → Exclusive x s
      → Exclusive x (record s {
        entries = set s.entries i (bind_key x w key hash (unwrap_or (get_elem? s.entries i) old));
      })
  key-Exclusive w key hash s i old v = elim (Option-cases (get_elem? s.entries i)) [
    | inl e ↦ rw e (rw (set_beyond s.entries i (bind_key x w key hash old) e) v)
    | inr (entry, e) ↦ rw e (bind_key-Exclusive w key hash s i entry v e)
  ]

  pub add-Exclusive :
      (w : World) (request : Enqueued) (s : DispatchQueueState)
      → Exclusive x s
      → let added = next_subject_generation s request.qualified_id in
        Exclusive x
          (record added.0 { entries = added.0.entries ++ new_entry x w request added.1 ∷ [] })
  unfolding next_subject_generation new_entry is_ticketed is_running_on
  add-Exclusive w request s v = append-IsExclusive x v _ (λ _. refl) (λ key. refl)
