-- ===== src/Service/Lease.antt =====
-- The old-style `queue/lease` of src/queue_service.rs.
pub mod Stored
use animus_queue_default.Common.{
  ℕ, suc, String, Bool, false, ◌&&◌, not, Option, none, some, List, [], ◌∷◌, ◌==◌, ltb, eqb, any,
  length, get_elem?, set, is_some, is_some_and, is_none_or, filter_opt, or_else, and_then,
  unwrap_or, is_blank, if◌then◌else◌,
}
use mathlib.Core.Option
use animus_queue_default.Protocol.{QueueEntry}
use animus_queue_default.State.{
  DispatchQueueEntry, DispatchQueueState, pending, assigned, status_eq,
}
use animus_queue_default.State.Entry.{is_ticketed, is_deferred_until_future, subject_id_ref}
use animus_queue_default.History.Record.{HistoryRecord}
use animus_queue_default.External.{External, World}
use animus_queue_default.Io.{Io, pure, raise, lift, ◌>>=◌, ◌>>◌}
use animus_queue_default.Store.{acquire_queue_lock}
use animus_queue_default.Service.Base.{
  QueueBackend, QueueLeaseError, workflow_id_count_mismatch, load_or_default, commit,
  sweep_expired_entries, entry_to_protocol,
}

module _ (x : External) (b : QueueBackend) (w : World) where
  -- A candidate: due and waiting, or running with an expired old-style lease.
  unfoldable pub is_due : DispatchQueueEntry → Bool
  is_due entry = status_eq entry.status pending && not (is_deferred_until_future x entry w.now)

  unfoldable pub is_lapsed : DispatchQueueEntry → Bool
  is_lapsed entry =
      status_eq entry.status assigned
      && is_some_and (λ expires_at. ltb expires_at w.now) entry.lease_expires_at

  -- The tests of the loop, but for `max` and the subjects.
  unfoldable pub is_candidate : DispatchQueueEntry → Bool
  unfolding is_due is_lapsed is_ticketed
  is_candidate entry =
      if is_ticketed entry
      then false
      else if not (is_due entry) && not (is_lapsed entry)
      then false
      else is_some entry.dispatch

  -- The loop over the entries from `index` on, with `count` indices chosen.
  unfoldable pub choose : ℕ → List String → ℕ → ℕ → List DispatchQueueEntry → List ℕ
  unfolding is_candidate
  choose max exclude count index [] = []
  choose max exclude count index (entry ∷ entries) =
      let subject = subject_id_ref entry in
      let skip = choose max exclude count (suc index) entries in
      let next = choose max (subject ∷ exclude) (suc count) (suc index) entries in
      if eqb count max
      then []
      else if not (is_candidate entry)
      then skip
      else if any (λ s. s == subject) exclude
      then skip
      else index ∷ next

  -- An id that the entry keeps, the caller's id for the slot, or a fresh one.
  unfoldable pub chosen_workflow_id : Option (List String) → ℕ → DispatchQueueEntry → String
  chosen_workflow_id workflow_ids slot entry =
      unwrap_or
        (or_else (filter_opt (λ id. not (is_blank id)) entry.workflow_id)
          (and_then workflow_ids (λ ids. get_elem? ids slot)))
        (w.uuid slot)

  unfoldable pub leased_entry : String → DispatchQueueEntry → DispatchQueueEntry
  leased_entry workflow_id entry = record entry {
    status = assigned;
    workflow_id = some workflow_id;
    lease_owner = some workflow_id;
    lease_expires_at = some (x.add_seconds w.now b.lease_ttl_secs);
    assigned_at = some (x.to_rfc3339 w.now);
  }

  unfoldable pub push_wire : Option QueueEntry → List QueueEntry → List QueueEntry
  push_wire none leased = leased
  push_wire (some entry) leased = entry ∷ leased

  -- The second loop: the entries with the chosen ones assigned, and what is handed out.
  unfoldable pub assign_chosen :
      Option (List String)
      → ℕ
      → List ℕ
      → List DispatchQueueEntry
      → List DispatchQueueEntry × List QueueEntry
  unfolding push_wire leased_entry chosen_workflow_id
  assign_chosen workflow_ids slot [] entries = (entries, [])
  assign_chosen workflow_ids slot (index ∷ chosen) entries = elim (get_elem? entries index) [
    | none ↦ (entries, [])
    | some entry ↦
        let taken = leased_entry (chosen_workflow_id workflow_ids slot entry) entry in
        let (entries', leased) =
          assign_chosen workflow_ids (suc slot) chosen (set entries index taken) in
        (entries', push_wire (entry_to_protocol x w taken) leased)
  ]

  -- A file is written if something was handed out or swept.
  commit_changed :
      DispatchQueueState
      → List QueueEntry
      → List HistoryRecord
      → Io QueueLeaseError (List QueueEntry)
  commit_changed state [] [] = pure []
  commit_changed state leased records = do
    lift QueueLeaseError.backend (commit x w state records)
    pure leased

  -- The state after the call, what is handed out and what is swept.
  unfoldable pub lease_state :
      ℕ
      → Option (List String)
      → List String
      → DispatchQueueState
      → DispatchQueueState × List QueueEntry × List HistoryRecord
  unfolding choose assign_chosen
  lease_state max workflow_ids exclude loaded =
      let (state, swept) = sweep_expired_entries x w.now loaded in
      let chosen = choose max exclude 0 0 state.entries in
      let (entries, leased) = assign_chosen workflow_ids 0 chosen state.entries in
      (record state { entries = entries }, leased, swept)

  unfoldable pub lease :
      ℕ → Option (List String) → Option (List String) → Io QueueLeaseError (List QueueEntry)
  unfolding lease_state commit_changed
  lease max workflow_ids exclude_subjects =
      if not (is_none_or (λ ids. eqb (length ids) max) workflow_ids)
      then raise (workflow_id_count_mismatch max (unwrap_or (Option.map length workflow_ids) 0))
      else if eqb max 0
      then pure []
      else do
        lift QueueLeaseError.backend (acquire_queue_lock w)
        loaded ← lift QueueLeaseError.backend (load_or_default w)
        let after = lease_state max workflow_ids (unwrap_or exclude_subjects []) loaded
        commit_changed after.0 after.1 after.2
