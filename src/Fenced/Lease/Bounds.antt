-- ===== src/Fenced/Lease/Bounds.antt =====
-- How many entries one `queue/v2/lease` of src/fenced_queue.rs hands out.
use animus_queue_default.Common.{
  ℕ, suc, ◌≤◌, String, true, false, Option, none, some, List, [], ◌∷◌, arith, leb, ltb, find,
  length, length-append, get_elem?, unwrap_or, Bool-cases, Option-cases, inl, inr, Result, ok, err,
  trim,
}
use animus_queue_default.Protocol.{
  RepositoryReservation, SubjectGeneration, ExecutionFence, QueueEntry, QueueLeaseV2Request,
  QueueLeaseV2Response,
}
use animus_queue_default.State.{DispatchQueueEntry, DispatchQueueState}
use animus_queue_default.History.Record.{HistoryRecord}
use animus_queue_default.External.{External, World}
use animus_queue_default.Io.{Disk, lift}
use animus_queue_default.Io.Keeps.{Answers, Answers-bind}
use animus_queue_default.Store.{acquire_queue_lock}
use animus_queue_default.Service.Base.{
  QueueBackend, QueueCallError, commit, load_or_default, sweep_expired_entries, entry_to_protocol,
}
use animus_queue_default.Fenced.Ticket.{reserves, running_entry_on_branch}
use animus_queue_default.Fenced.Lease.{
  LeaseLoop, Round, goes_on, breaks, after_round, block, fences_subject, fenced_entry, hand_out,
  hand_out_as, with_workflow_id, on_free_branch, on_branch, on_subject, on_identity, lease_round,
  lease_loop, leased_state, candidates, lease_v2, lease_validated, commit_loop, max_lease_batch,
}

abbrev count : LeaseLoop → ℕ
count s = length s.leased

-- A round hands out at most one entry.
abbrev AddsOne : LeaseLoop → LeaseLoop → Type 0
AddsOne s s' = count s' ≤ suc (count s)

abbrev RoundAddsOne : LeaseLoop → Round → Type 0
RoundAddsOne s (goes_on s') = AddsOne s s'
RoundAddsOne s (breaks s') = AddsOne s s'

module _ (x : External) (w : World) where
  length-fenced_entry :
      (entry : Option QueueEntry) (execution : ExecutionFence)
      → length (fenced_entry x w entry execution) ≤ 1
  unfolding fenced_entry
  length-fenced_entry none execution = omega arith
  length-fenced_entry (some entry) execution = omega arith

  module _ (request : QueueLeaseV2Request) (owner : String) (expires_at : ℕ) where
    hand_out-AddsOne :
        (s : LeaseLoop) (index : ℕ) (entry taken : DispatchQueueEntry) (unused : List String)
        → (execution : Option ExecutionFence)
        → AddsOne s (hand_out x w request owner expires_at s index entry taken unused execution)
    unfolding hand_out block
    hand_out-AddsOne s index entry taken unused none = omega arith
    hand_out-AddsOne s index entry taken unused (some execution) = omega (
      arith,
      length-append s.leased (fenced_entry x w (entry_to_protocol x w taken) execution),
      length-fenced_entry (entry_to_protocol x w taken) execution,
    )

    with_workflow_id-AddsOne :
        (s : LeaseLoop) (index : ℕ) (entry : DispatchQueueEntry) (id : Option String)
        → (unused : List String)
        → RoundAddsOne s (with_workflow_id x w request owner expires_at s index entry id unused)
    unfolding with_workflow_id hand_out_as
    with_workflow_id-AddsOne s index entry (some id) unused =
        hand_out-AddsOne s index entry _ s.unused _
    with_workflow_id-AddsOne s index entry none [] = omega arith
    with_workflow_id-AddsOne s index entry none (id ∷ unused) =
        hand_out-AddsOne s index entry _ unused _

    on_branch-AddsOne :
        (s : LeaseLoop) (index : ℕ) (entry : DispatchQueueEntry)
        → (repository : Option RepositoryReservation)
        → RoundAddsOne s (on_branch x w request owner expires_at s index entry repository)
    unfolding on_branch on_free_branch block
    on_branch-AddsOne s index entry none = with_workflow_id-AddsOne s index entry _ s.unused
    on_branch-AddsOne s index entry (some repository) =
        elim (Option-cases (
          find
            (λ (fence : ExecutionFence). reserves x (x.collision_key repository) fence.repository)
            request.exclude)) [
              | inl f ↦
                  elim (Option-cases
                    (running_entry_on_branch x s.state.entries (x.collision_key repository))) [
                      | inl g ↦
                          rw (f, g, on_branch) (with_workflow_id-AddsOne s index entry _ s.unused)
                      | inr (running, g) ↦ rw (f, g, on_branch) (omega arith)
                    ]
              | inr (conflict, f) ↦ rw (f, on_branch) (omega arith)
            ]

    on_subject-AddsOne :
        (s : LeaseLoop) (index : ℕ) (entry : DispatchQueueEntry) (subject : SubjectGeneration)
        → RoundAddsOne s (on_subject x w request owner expires_at s index entry subject)
    unfolding on_subject block
    on_subject-AddsOne s index entry subject =
        elim (Option-cases (find (fences_subject subject) request.exclude)) [
          | inl f ↦ rw (f, on_subject) (on_branch-AddsOne s index entry entry.repository)
          | inr (conflict, f) ↦ rw (f, on_subject) (omega arith)
        ]

    on_identity-AddsOne :
        (s : LeaseLoop) (index : ℕ) (entry : DispatchQueueEntry)
        → (identity : DispatchQueueState × Result String SubjectGeneration)
        → RoundAddsOne s (on_identity x w request owner expires_at s index entry identity)
    unfolding on_identity block
    on_identity-AddsOne s index entry (state, err message) = omega arith
    on_identity-AddsOne s index entry (state, ok subject) =
        on_subject-AddsOne _ index (unwrap_or (get_elem? state.entries index) entry) subject

    lease_round-AddsOne :
        (s : LeaseLoop) (index : ℕ)
        → RoundAddsOne s (lease_round x w request owner expires_at s index)
    unfolding lease_round
    lease_round-AddsOne s index = elim (Option-cases (get_elem? s.state.entries index)) [
      | inl f ↦ rw (f, lease_round) (omega arith)
      | inr (entry, f) ↦ rw (f, lease_round) (on_identity-AddsOne s index entry _)
    ]

    after_round-count :
        (rest : LeaseLoop → LeaseLoop)
        → ((s : LeaseLoop) → count s ≤ request.max → count (rest s) ≤ request.max)
        → (s : LeaseLoop) (round : Round) → suc (count s) ≤ request.max
        → RoundAddsOne s round
        → count (after_round rest round) ≤ request.max
    after_round-count rest ih s (goes_on s') h one = ih s' (omega (arith, one))
    after_round-count rest ih s (breaks s') h one = omega (arith, one)

    count-lease_loop :
        (indices : List ℕ) (s : LeaseLoop)
        → count s ≤ request.max
        → count (lease_loop x w request owner expires_at indices s) ≤ request.max
    unfolding lease_loop
    count-lease_loop [] s h = h
    count-lease_loop (index ∷ rest) s h = elim (Bool-cases (leb request.max (count s))) [
      | inl done ↦ rw (done, lease_loop) h
      | inr more ↦
          rw (more, lease_loop)
            (after_round-count (lease_loop x w request owner expires_at rest)
              (count-lease_loop rest) s (lease_round x w request owner expires_at s index)
              (ground arith) (lease_round-AddsOne s index))
    ]

  module _ (b : QueueBackend) where
    count-leased_state :
        (request : QueueLeaseV2Request) (state : DispatchQueueState) (swept : List HistoryRecord)
        → count (leased_state x w b request state swept) ≤ request.max
    unfolding leased_state
    count-leased_state request state swept =
        count-lease_loop request (trim request.owner_id) (x.add_seconds w.now b.lease_ttl_secs)
          (candidates x w request.max state.entries)
          (record {
            state = state;
            changed = elim swept [ [] ↦ false | _ ↦ true ];
            leased = [];
            blocked = [];
            unused = request.workflow_ids;
          })
          (omega arith)

    -- At most `max` entries are handed out, and `max` is at most 5.
    abbrev pub IsBounded : QueueLeaseV2Request → QueueLeaseV2Response → Type 0
    IsBounded request answer =
        (length answer.leased ≤ request.max) × (request.max ≤ max_lease_batch)

    commit_loop-IsBounded :
        (request : QueueLeaseV2Request) (swept : List HistoryRecord) (s : LeaseLoop) (d : Disk)
        → IsBounded request (record { leased = s.leased; blocked = s.blocked })
        → Answers (IsBounded request) (commit_loop x w b swept s d).1
    unfolding commit_loop
    commit_loop-IsBounded request swept s d h = elim (Bool-cases s.changed) [
      | inl changed ↦
          rw (changed, commit_loop)
            (Answers-bind (IsBounded request)
              (lift QueueCallError.backend (commit x w s.state swept)) _ d (λ u d'. h))
      | inr same ↦ rw (same, commit_loop) h
    ]

    lease_validated-IsBounded :
        (request : QueueLeaseV2Request) (invalid : Option String) (d : Disk)
        → Answers (IsBounded request) (lease_validated x w b request invalid d).1
    unfolding lease_validated
    lease_validated-IsBounded request (some message) d = tt
    lease_validated-IsBounded request none d = elim (Bool-cases (ltb max_lease_batch request.max)) [
      | inl large ↦ rw (large, lease_validated) tt
      | inr fits ↦
          rw (fits, lease_validated)
            (Answers-bind (IsBounded request) (lift QueueCallError.backend (acquire_queue_lock w)) _
              d
              (λ u d'.
                Answers-bind (IsBounded request) (lift QueueCallError.backend (load_or_default w)) _
                  d'
                  (λ loaded d''.
                    let after = sweep_expired_entries x w.now loaded in
                    commit_loop-IsBounded request after.1
                      (leased_state x w b request after.0 after.1) d''
                      (count-leased_state request after.0 after.1, ground arith))))
    ]

    -- Whatever the disk holds and whatever fails, if `queue/v2/lease` answers, it hands out at
    -- most the `max` entries that the request asks for, and `max` is at most 5.
    pub lease_v2-IsBounded :
        (request : QueueLeaseV2Request) (d : Disk)
        → Answers (IsBounded request) (lease_v2 x w b request d).1
    unfolding lease_v2
    lease_v2-IsBounded request d = lease_validated-IsBounded request (x.validate_lease request) d
