-- ===== src/Fenced/Lease.antt =====
-- `queue/v2/lease` of src/fenced_queue.rs.
pub mod Stored
pub mod Bounds
use animus_queue_default.Common.{
  ℕ, suc, ◌+◌, ◌*◌, String, Bool, true, false, ◌&&◌, ◌||◌, not, Option, none, some, List, [], ◌∷◌,
  ◌++◌, ◌==◌, ltb, leb, eqb, u64, max, trim, is_blank, find, length, take, get_elem?, set, is_some,
  filter_opt, unwrap_or, if◌then◌else◌, ◌<>◌, Result, ok, err,
}
use animus_queue_default.Protocol.{
  RepositoryReservation, SubjectGeneration, ExecutionFence, QueueEntry, FencedQueueEntry,
  QueueLeaseBlock, QueueLeaseBlockReason, missing_execution_identity, subject_generation_active,
  repository_ref_collision, QueueLeaseV2Request, QueueLeaseV2Response,
}
use animus_queue_default.State.{
  DispatchQueueEntry, DispatchQueueState, pending, assigned, status_eq,
}
use animus_queue_default.State.Entry.{execution_fence, is_deferred_until_future, is_ticketed}
use animus_queue_default.History.Record.{HistoryRecord}
use animus_queue_default.External.{External, World}
use animus_queue_default.Io.{Io, pure, raise, lift, ◌>>=◌, ◌>>◌}
use animus_queue_default.Store.{acquire_queue_lock}
use animus_queue_default.Service.Base.{
  QueueBackend, QueueCallError, invalid_params, load_or_default, commit, sweep_expired_entries,
  entry_to_protocol,
}
use animus_queue_default.Fenced.Generation.{ensure_ticket_identity}
use animus_queue_default.Fenced.Ticket.{lease_block, reserves, running_entry_on_branch}

abbrev pub max_lease_batch : ℕ
max_lease_batch = 5

-- The variables of the loop; `unused` are the workflow ids not handed out.
pub record LeaseLoop : Type 0 where
  pub state : DispatchQueueState
  pub changed : Bool
  pub leased : List FencedQueueEntry
  pub blocked : List QueueLeaseBlock
  pub unused : List String

-- A round goes on with the loop or breaks out of it.
pub data Round : Type 0 where
  goes_on breaks : LeaseLoop → Round

abbrev pub after_round : (LeaseLoop → LeaseLoop) → Round → LeaseLoop
after_round rest (goes_on s) = rest s
after_round rest (breaks s) = s

unfoldable pub block :
    LeaseLoop → String → QueueLeaseBlockReason → Option ExecutionFence → LeaseLoop
block s entry_id reason conflict = record s {
  blocked = s.blocked ++ lease_block entry_id reason conflict ∷ [];
}

abbrev same_subject : SubjectGeneration → SubjectGeneration → Bool
same_subject a b = a.qualified_id == b.qualified_id && eqb a.generation b.generation

unfoldable pub fences_subject : SubjectGeneration → ExecutionFence → Bool
fences_subject subject fence = elim fence.subject [
  | none ↦ false
  | some held ↦ same_subject held subject
]

module _ (x : External) (w : World) where
  unfoldable pub is_ready : DispatchQueueEntry → Bool
  is_ready entry = status_eq entry.status pending && not (is_deferred_until_future x entry w.now)

  -- The indices of the entries that can be handed out, from `index` on.
  unfoldable pub ready_indices : ℕ → List DispatchQueueEntry → List ℕ
  unfolding is_ready
  ready_indices index [] = []
  ready_indices index (entry ∷ entries) =
      let rest = ready_indices (suc index) entries in if is_ready entry then index ∷ rest else rest

  unfoldable pub candidates : ℕ → List DispatchQueueEntry → List ℕ
  unfolding ready_indices
  candidates wanted entries = take (max (wanted * 10) 50) (ready_indices 0 entries)

  unfoldable pub ticket_leased_entry : String → ℕ → String → DispatchQueueEntry → DispatchQueueEntry
  ticket_leased_entry owner_id expires_at workflow_id entry = record entry {
    status = assigned;
    workflow_id = some workflow_id;
    workflow_generation = some (unwrap_or entry.workflow_generation 1);
    lease_owner = some owner_id;
    lease_generation = u64 (entry.lease_generation + 1);
    lease_expires_at = some expires_at;
    assigned_at = some (x.to_rfc3339 w.now);
    held_at = none;
  }

  -- The dispatch was tested, so the wire form of the entry is there.
  fenced_entry : Option QueueEntry → ExecutionFence → List FencedQueueEntry
  fenced_entry none execution = []
  fenced_entry (some entry) execution = record { entry = entry; execution = execution } ∷ []

  module _ (request : QueueLeaseV2Request) (owner_id : String) (expires_at : ℕ) where
    -- The entry is handed out, unless its identity is damaged.
    hand_out :
        LeaseLoop
        → ℕ
        → DispatchQueueEntry
        → DispatchQueueEntry
        → List String
        → Option ExecutionFence
        → LeaseLoop
    unfolding fenced_entry block
    hand_out s index entry taken unused none =
        block s entry.entry_id missing_execution_identity none
    hand_out s index entry taken unused (some execution) = record s {
      state = record s.state { entries = set s.state.entries index taken };
      changed = true;
      leased = s.leased ++ fenced_entry (entry_to_protocol x w taken) execution;
      unused = unused;
    }

    hand_out_as : LeaseLoop → ℕ → DispatchQueueEntry → String → List String → LeaseLoop
    unfolding hand_out ticket_leased_entry
    hand_out_as s index entry workflow_id unused =
        let taken = ticket_leased_entry owner_id expires_at workflow_id entry in
        hand_out s index entry taken unused (execution_fence x taken)

    -- The id that the entry keeps, or the next unused one.
    with_workflow_id : LeaseLoop → ℕ → DispatchQueueEntry → Option String → List String → Round
    unfolding hand_out_as
    with_workflow_id s index entry (some id) unused =
        goes_on (hand_out_as s index entry id s.unused)
    with_workflow_id s index entry none [] = breaks s
    with_workflow_id s index entry none (id ∷ unused) =
        goes_on (hand_out_as s index entry id unused)

    on_free_branch : LeaseLoop → ℕ → DispatchQueueEntry → Round
    unfolding with_workflow_id
    on_free_branch s index entry =
        with_workflow_id s index entry (filter_opt (λ id. not (is_blank id)) entry.workflow_id)
          s.unused

    on_branch : LeaseLoop → ℕ → DispatchQueueEntry → Option RepositoryReservation → Round
    unfolding on_free_branch block
    on_branch s index entry none = on_free_branch s index entry
    on_branch s index entry (some repository) =
        let key = x.collision_key repository in
        elim (find (λ (fence : ExecutionFence). reserves x key fence.repository) request.exclude) [
          | some conflict ↦
              goes_on (block s entry.entry_id repository_ref_collision (some conflict))
          | none ↦ elim (running_entry_on_branch x s.state.entries key) [
            | some running ↦
                goes_on
                  (block s entry.entry_id repository_ref_collision (execution_fence x running))
            | none ↦ on_free_branch s index entry
          ]
        ]

    -- `entry` has its ticket identity, which is `subject`.
    on_subject : LeaseLoop → ℕ → DispatchQueueEntry → SubjectGeneration → Round
    unfolding on_branch block
    on_subject s index entry subject = elim (find (fences_subject subject) request.exclude) [
      | some conflict ↦ goes_on (block s entry.entry_id subject_generation_active (some conflict))
      | none ↦ on_branch s index entry entry.repository
    ]

    on_identity :
        LeaseLoop
        → ℕ
        → DispatchQueueEntry
        → DispatchQueueState × Result String SubjectGeneration
        → Round
    unfolding on_subject block
    on_identity s index entry (state, err message) =
        goes_on (block s entry.entry_id missing_execution_identity none)
    on_identity s index entry (state, ok subject) =
        on_subject (record s { state = state; changed = s.changed || not (is_ticketed entry) })
          index (unwrap_or (get_elem? state.entries index) entry) subject

    identify :
        DispatchQueueState
        → ℕ
        → DispatchQueueEntry
        → DispatchQueueState × Result String SubjectGeneration
    identify state index entry =
        if is_some entry.dispatch
        then ensure_ticket_identity state index entry
        else (state, err ("queue entry " <> entry.entry_id <> " has no dispatch envelope"))

    -- One round of the loop, on the entry at `index`.
    unfoldable pub lease_round : LeaseLoop → ℕ → Round
    unfolding on_identity identify
    lease_round s index = elim (get_elem? s.state.entries index) [
      | none ↦ goes_on s
      | some entry ↦ on_identity s index entry (identify s.state index entry)
    ]

    unfoldable pub lease_loop : List ℕ → LeaseLoop → LeaseLoop
    unfolding lease_round
    lease_loop [] s = s
    lease_loop (index ∷ rest) s = elim (leb request.max (length s.leased)) [
      | true ↦ s
      | false ↦ after_round (lease_loop rest) (lease_round s index)
    ]

  module _ (b : QueueBackend) where
    -- What the call makes of the swept state.
    unfoldable pub leased_state :
        QueueLeaseV2Request → DispatchQueueState → List HistoryRecord → LeaseLoop
    unfolding lease_loop candidates trim
    leased_state request state swept =
        lease_loop request (trim request.owner_id) (x.add_seconds w.now b.lease_ttl_secs)
          (candidates request.max state.entries)
          (record {
            state = state;
            changed = elim swept [ [] ↦ false | _ ↦ true ];
            leased = [];
            blocked = [];
            unused = request.workflow_ids;
          })

    commit_loop : List HistoryRecord → LeaseLoop → Io QueueCallError QueueLeaseV2Response
    commit_loop swept s =
        if not s.changed then pure (record { leased = s.leased; blocked = s.blocked }) else do
          lift QueueCallError.backend (commit x w s.state swept)
          pure (record { leased = s.leased; blocked = s.blocked })

    lease_validated : QueueLeaseV2Request → Option String → Io QueueCallError QueueLeaseV2Response
    unfolding leased_state commit_loop
    lease_validated request (some message) = raise (invalid_params message)
    lease_validated request none =
        if ltb max_lease_batch request.max
        then raise (
            invalid_params
              "queue v2 lease requires max 1..5, owner_id, and max unique workflow_ids")
        else do
          lift QueueCallError.backend (acquire_queue_lock w)
          loaded ← lift QueueCallError.backend (load_or_default w)
          let after = sweep_expired_entries x w.now loaded
          commit_loop after.1 (leased_state request after.0 after.1)

    unfoldable pub lease_v2 : QueueLeaseV2Request → Io QueueCallError QueueLeaseV2Response
    unfolding lease_validated
    lease_v2 request = lease_validated request (x.validate_lease request)
