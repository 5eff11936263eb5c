-- ===== src/Fenced/Lease/Stored.antt =====
-- Invariants of the stored state through `queue/v2/lease`.
use animus_queue_default.Common.{
  ℕ, ◌≡◌, refl, String, ◌||◌, not, Option, none, some, List, [], ◌∷◌, ◌⊎◌, inl, inr, ltb, leb,
  length, find, get_elem?, set, is_some, Bool-cases, Option-cases, Result, ok, err, trim,
}
use animus_queue_default.Protocol.{
  RepositoryReservation, SubjectGeneration, ExecutionFence, QueueLeaseV2Request,
}
use animus_queue_default.State.{DispatchQueueEntry, DispatchQueueState}
use animus_queue_default.State.Entry.{is_ticketed}
use animus_queue_default.History.Record.{HistoryRecord}
use animus_queue_default.External.{External, World}
use animus_queue_default.Io.Keeps.{Keeps, Keeps-bind, Keeps-lift, Keeps-pure, Keeps-raise, Keeps-if}
use animus_queue_default.Store.Stored.{IsStable, Stored, Keeps-acquire}
use animus_queue_default.Service.Base.{QueueBackend, QueueCallError, sweep_expired_entries}
use animus_queue_default.Service.Stored.{Keeps-commit, Keeps-default_bind}
use animus_queue_default.Fenced.Generation.{ensure_ticket_identity}
use animus_queue_default.Fenced.Generation.Location.{ensure_ticket_identity-get_elem?}
use animus_queue_default.Fenced.Ticket.{reserves, running_entry_on_branch}
use animus_queue_default.Fenced.Lease.{
  LeaseLoop, Round, goes_on, breaks, after_round, fences_subject, ticket_leased_entry, hand_out,
  with_workflow_id, on_free_branch, on_branch, on_subject, on_identity, identify, lease_round,
  lease_loop, candidates, leased_state, commit_loop, lease_validated, lease_v2, max_lease_batch,
}

-- The entry reserves no branch, or one on which nothing runs.
abbrev pub IsFree : External → List DispatchQueueEntry → DispatchQueueEntry → Type 0
IsFree x entries entry =
    (entry.repository ≡ none)
    ⊎ ((r : RepositoryReservation) × (entry.repository ≡ some r)
        × (running_entry_on_branch x entries (x.collision_key r) ≡ none))

module _ (I : DispatchQueueState → Type 0) (x : External) (w : World)
    (keep_ticket : (s : DispatchQueueState) (i : ℕ) (old : DispatchQueueEntry)
      → I s
      → get_elem? s.entries i ≡ some old
      → I (ensure_ticket_identity s i old).0)
    (keep_lease : (s : DispatchQueueState) (i : ℕ) (old : DispatchQueueEntry)
      → (owner_id : String) (expires_at : ℕ) (workflow_id : String) → I s
      → get_elem? s.entries i ≡ some old
      → IsFree x s.entries old
      → I (record s {
        entries = set s.entries i (ticket_leased_entry x w owner_id expires_at workflow_id old);
      })) where
  abbrev RoundHolds : Round → Type 0
  RoundHolds (goes_on s) = I s.state
  RoundHolds (breaks s) = I s.state

  module _ (request : QueueLeaseV2Request) (owner_id : String) (expires_at : ℕ) where
    hand_out_holds :
        (s : LeaseLoop) (i : ℕ) (old taken : DispatchQueueEntry) (unused : List String)
        → (fence : Option ExecutionFence) → I s.state
        → I (record s.state { entries = set s.state.entries i taken })
        → I (hand_out x w request owner_id expires_at s i old taken unused fence).state
    unfolding hand_out
    hand_out_holds s i old taken unused none v l = v
    hand_out_holds s i old taken unused (some fence) v l = l

    module _ (s : LeaseLoop) (i : ℕ) (old : DispatchQueueEntry) (v : I s.state)
        (at : get_elem? s.state.entries i ≡ some old) where
      with_workflow_id_holds :
          IsFree x s.state.entries old
          → (id : Option String) (unused : List String)
          → RoundHolds (with_workflow_id x w request owner_id expires_at s i old id unused)
      unfolding with_workflow_id
      with_workflow_id_holds free (some id) unused =
          hand_out_holds s i old _ _ _ v (keep_lease s.state i old owner_id expires_at id v at free)
      with_workflow_id_holds free none [] = v
      with_workflow_id_holds free none (id ∷ unused) =
          hand_out_holds s i old _ _ _ v (keep_lease s.state i old owner_id expires_at id v at free)

      on_free_branch_holds :
          IsFree x s.state.entries old
          → RoundHolds (on_free_branch x w request owner_id expires_at s i old)
      unfolding on_free_branch
      on_free_branch_holds free = with_workflow_id_holds free _ s.unused

      on_branch_holds :
          (r : Option RepositoryReservation)
          → old.repository ≡ r
          → RoundHolds (on_branch x w request owner_id expires_at s i old r)
      unfolding on_branch
      on_branch_holds none e = on_free_branch_holds (inl e)
      on_branch_holds (some r) e =
          let key = x.collision_key r in
          let excluded =
            find (λ (f : ExecutionFence). reserves x key f.repository) request.exclude in
          elim (Option-cases excluded) [
            | inr (conflict, c) ↦ rw (c, on_branch) v
            | inl c ↦ elim (Option-cases (running_entry_on_branch x s.state.entries key)) [
              | inr (running, f) ↦ rw (c, f, on_branch) v
              | inl f ↦ rw (c, f, on_branch) (on_free_branch_holds (inr (r, e, f)))
            ]
          ]

      on_subject_holds :
          (subject : SubjectGeneration)
          → RoundHolds (on_subject x w request owner_id expires_at s i old subject)
      unfolding on_subject
      on_subject_holds subject =
          elim (Option-cases (find (fences_subject subject) request.exclude)) [
            | inr (conflict, c) ↦ rw (c, on_subject) v
            | inl c ↦ rw (c, on_subject) (on_branch_holds old.repository refl)
          ]

    identify_holds :
        (s : DispatchQueueState) (i : ℕ) (old : DispatchQueueEntry)
        → I s
        → get_elem? s.entries i ≡ some old
        → I (identify x w request owner_id expires_at s i old).0
          × ((new : DispatchQueueEntry) × (get_elem?
                  (identify x w request owner_id expires_at s i old).0.entries
                  i
                ≡ some new))
    unfolding identify
    identify_holds s i old v at = elim (Bool-cases (is_some old.dispatch)) [
      | inl e ↦
          rw (e, identify) (keep_ticket s i old v at, ensure_ticket_identity-get_elem? s i old at)
      | inr e ↦ rw (e, identify) (v, (old, at))
    ]

    on_identity_holds :
        (s : LeaseLoop) (i : ℕ) (old new : DispatchQueueEntry)
        → (identity : DispatchQueueState × Result String SubjectGeneration) → I s.state
        → I identity.0
        → get_elem? identity.0.entries i ≡ some new
        → RoundHolds (on_identity x w request owner_id expires_at s i old identity)
    unfolding on_identity
    on_identity_holds s i old new (state, err message) v l at = v
    on_identity_holds s i old new (state, ok subject) v l at = rw at (
        on_subject_holds (record s { state = state; changed = s.changed || not (is_ticketed old) })
          i new l at subject)

    lease_round_holds :
        (s : LeaseLoop) (i : ℕ)
        → I s.state
        → RoundHolds (lease_round x w request owner_id expires_at s i)
    unfolding lease_round
    lease_round_holds s i v = elim (Option-cases (get_elem? s.state.entries i)) [
      | inl e ↦ rw (e, lease_round) v
      | inr (old, e) ↦
          let (l, (new, at)) = identify_holds s.state i old v e in
          rw (e, lease_round) (on_identity_holds s i old new _ v l at)
    ]

    continue_holds :
        (indices : List ℕ) (r : Round)
        → ((s : LeaseLoop)
            → I s.state
            → I (lease_loop x w request owner_id expires_at indices s).state)
        → RoundHolds r
        → I (after_round (lease_loop x w request owner_id expires_at indices) r).state
    continue_holds indices (goes_on s) rest v = rest s v
    continue_holds indices (breaks s) rest v = v

    pub lease_loop_holds :
        (indices : List ℕ) (s : LeaseLoop)
        → I s.state
        → I (lease_loop x w request owner_id expires_at indices s).state
    unfolding lease_loop
    lease_loop_holds [] s v = v
    lease_loop_holds (i ∷ indices) s v = elim (Bool-cases (leb request.max (length s.leased))) [
      | inl full ↦ rw (full, lease_loop) v
      | inr room ↦
          rw (room, lease_loop)
            (continue_holds indices (lease_round x w request owner_id expires_at s i)
              (lease_loop_holds indices) (lease_round_holds s i v))
    ]

  module _ (H : Option (List ℕ) → Type 0) (stable : IsStable I H) (b : QueueBackend)
      (keep_sweep : (s : DispatchQueueState) → I s → I (sweep_expired_entries x w.now s).0) where
    leased_state_holds :
        (request : QueueLeaseV2Request) (s : DispatchQueueState) (swept : List HistoryRecord)
        → I s
        → I (leased_state x w b request s swept).state
    unfolding leased_state
    leased_state_holds request s swept v =
        lease_loop_holds request (trim request.owner_id) (x.add_seconds w.now b.lease_ttl_secs)
          (candidates x w request.max s.entries) _ v

    Keeps-commit_loop :
        (swept : List HistoryRecord) (s : LeaseLoop)
        → I s.state
        → Keeps (Stored I H) (commit_loop x w b swept s)
    unfolding commit_loop
    Keeps-commit_loop swept s v =
        Keeps-if (not s.changed) _ _ (λ _. Keeps-pure _)
          (λ _.
            Keeps-bind _ _
              (Keeps-lift QueueCallError.backend _ (Keeps-commit x I H stable w s.state swept v))
              (λ _. Keeps-pure _))

    Keeps-lease_validated :
        (request : QueueLeaseV2Request) (error : Option String)
        → Keeps (Stored I H) (lease_validated x w b request error)
    unfolding lease_validated
    Keeps-lease_validated request (some message) = Keeps-raise _
    Keeps-lease_validated request none =
        Keeps-if (ltb max_lease_batch request.max) _ _ (λ _. Keeps-raise _)
          (λ _. Keeps-bind _ _ (Keeps-lift QueueCallError.backend _ (Keeps-acquire I H w)) (λ _.
            Keeps-default_bind I H stable QueueCallError.backend w _ (λ s v.
              let swept = sweep_expired_entries x w.now s in
              Keeps-commit_loop swept.1 (leased_state x w b request swept.0 swept.1)
                (leased_state_holds request swept.0 swept.1 (keep_sweep s v)))))

    pub Keeps-lease_v2 :
        (request : QueueLeaseV2Request) → Keeps (Stored I H) (lease_v2 x w b request)
    unfolding lease_v2
    Keeps-lease_v2 request = Keeps-lease_validated request (x.validate_lease request)
