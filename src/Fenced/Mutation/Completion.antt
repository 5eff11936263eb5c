-- ===== src/Fenced/Mutation/Completion.antt =====
-- `queue/v2/completion` on a disk that works, and the same call once more.
use animus_queue_default.Common.{
  ℕ, ◌≡◌, refl, String, true, false, Option, none, some, List, [], ◌∷◌, ◌++◌, ◌==◌, All-remove_at,
  arith, locate, locate_lem, remove_at, ok, is_blank, trim,
}
use animus_queue_default.Protocol.{
  SubjectGeneration, QueueLeaseFence, ExecutionFence, applied, already_applied,
}
use animus_queue_default.State.{
  DispatchQueueEntry, DispatchQueueState, assigned, status_eq, queue_format_version,
}
use animus_queue_default.State.Entry.{execution_fence}
use animus_queue_default.External.{External, World}
use animus_queue_default.Io.{Disk, full}
use animus_queue_default.History.{
  append_history, write_bytes, appended, find_in, find_last, has_entry_id, find_history_by_entry_id,
}
use animus_queue_default.History.Record.{HistoryRecord, HistoryOutcome, finished}
use animus_queue_default.History.Recovery.{IsReadable, find_in-appended}
use animus_queue_default.Store.{acquire_queue_lock}
use animus_queue_default.Store.Loading.{
  IsSound, ReadsAs, save_queue_state_sound, load_queue_state-full,
}
use animus_queue_default.Service.Base.{commit, load_or_default}
use animus_queue_default.Service.Durability.{history_bytes}
use animus_queue_default.Service.Mutations.{has_id}
use animus_queue_default.Fenced.Ticket.{mutation_response, exact_fence_matches, fence_parts_match}
use animus_queue_default.Fenced.Mutation.{
  complete, is_dropped, mutate_live, mutate_located, mutate_lease, apply_operation, fenced_mutation,
  finished_entry_outcome, answer_finished,
}
use animus_queue_default.Fenced.Mutation.Fencing.{fenced_mutation-live}

module _ (x : External) where
  abbrev pub completed_record : World → DispatchQueueEntry → HistoryOutcome → HistoryRecord
  completed_record w entry outcome = finished w.now entry outcome "queue/v2/completion" none

  -- What a completion leaves: the entry is gone, and its record stands last in the history.
  abbrev pub completed_disk : World → Disk → DispatchQueueState → ℕ → HistoryRecord → Disk
  completed_disk w d state i r = record d {
    queue_json = some (
        full (record state {
          format_version = queue_format_version;
          entries = remove_at state.entries i;
        }));
    history = some (history_bytes d ++ appended x (history_bytes d) (r ∷ []));
  }

  -- A history line keeps the ticket.
  finished-fence_parts_match :
      (w : World) (entry : DispatchQueueEntry) (outcome : HistoryOutcome)
      → (execution : ExecutionFence)
      → (subject : Option SubjectGeneration) (lease : Option QueueLeaseFence)
      → fence_parts_match x (completed_record w entry outcome).entry execution subject lease
        ≡ fence_parts_match x entry execution subject lease
  unfolding fence_parts_match finished
  finished-fence_parts_match w entry outcome execution none lease = refl
  finished-fence_parts_match w entry outcome execution (some subject) none = refl
  finished-fence_parts_match w entry outcome execution (some subject) (some lease) = refl

  finished-execution_fence :
      (w : World) (entry : DispatchQueueEntry) (outcome : HistoryOutcome)
      → execution_fence x (completed_record w entry outcome).entry ≡ execution_fence x entry
  unfolding execution_fence finished
  finished-execution_fence w entry outcome = refl

  outcome-finished :
      (w : World) (entry : DispatchQueueEntry) (outcome : HistoryOutcome)
      → (completed_record w entry outcome).outcome ≡ outcome
  unfolding finished
  outcome-finished w entry outcome = refl

  -- The line is found by the id of its entry.
  find_in-completed :
      (w : World) (d : Disk) (entry : DispatchQueueEntry) (outcome : HistoryOutcome)
      → let r = completed_record w entry outcome in
        IsReadable x r
        → (id : String) → (entry.entry_id == id) ≡ true
        → find_in x (has_entry_id x id) (history_bytes d ++ appended x (history_bytes d) (r ∷ []))
          ≡ some r
  unfolding has_entry_id finished
  find_in-completed w d entry outcome h id e = ground (
    arith,
    e,
    find_in-appended x (has_entry_id x id) (history_bytes d) (completed_record w entry outcome ∷ [])
        (h, tt),
  )

  -- A call on an entry that is gone is answered from the history.
  fenced_mutation-gone :
      (w : World) (d : Disk) (state : DispatchQueueState)
      → ReadsAs w d state
      → (execution : ExecutionFence) (outcome : HistoryOutcome) (lease : QueueLeaseFence)
      → execution.queue_lease ≡ some lease
      → locate (has_id lease.entry_id) state.entries ≡ none
      → (bytes : List ℕ) (r : HistoryRecord) → d.history ≡ some bytes
      → find_in x (has_entry_id x lease.entry_id) bytes ≡ some r
      → fenced_mutation x w execution (complete outcome) d
        ≡ (d, ok (answer_finished x w execution (complete outcome) (some r)))
  unfolding fenced_mutation mutate_lease mutate_located acquire_queue_lock load_or_default
      finished_entry_outcome find_history_by_entry_id find_last
  fenced_mutation-gone w d state r execution outcome lease l e bytes rec hist f = ground (
    arith,
    r.sound.locks,
    r.sound.reads_history,
    l,
    e,
    hist,
    f,
    load_queue_state-full w d state r.sound.reads r.held r.current r.has_ids,
  )

  module _ (w : World) (d : Disk) (state : DispatchQueueState) (r : ReadsAs w d state)
      (execution : ExecutionFence) (lease : QueueLeaseFence)
      (l : execution.queue_lease ≡ some lease) (i : ℕ) (entry : DispatchQueueEntry)
      (e : locate (has_id lease.entry_id) state.entries ≡ some (i, entry))
      (m : exact_fence_matches x entry execution ≡ true)
      (runs : status_eq entry.status assigned ≡ true) (outcome : HistoryOutcome) where
    complete-applied : fenced_mutation x w execution (complete outcome) d ≡ (
      completed_disk w d state i (completed_record w entry outcome),
      ok (mutation_response applied (execution_fence x entry) none),
    )
    unfolding mutate_live apply_operation commit append_history write_bytes
    complete-applied = ground (
      arith,
      fenced_mutation-live x w d state r execution (complete outcome) lease l i entry e,
      m,
      runs,
      r.sound.appending,
      save_queue_state_sound w
          (record d {
            history = (completed_disk w d state i (completed_record w entry outcome)).history;
          })
          (record state { entries = remove_at state.entries i }) r.sound.saving,
    )

    completed-ReadsAs :
        (later : World)
        → IsSound later
        → ReadsAs later
            (completed_disk w d state i (completed_record w entry outcome))
            (record state {
              format_version = queue_format_version;
              entries = remove_at state.entries i;
            })
    completed-ReadsAs later s = record {
      sound = s;
      held = refl;
      current = omega arith;
      has_ids =
          All-remove_at (λ (entry : DispatchQueueEntry). is_blank (trim entry.entry_id) ≡ false)
            state.entries i r.has_ids;
    }

    -- On a disk that works, with no second entry of the same id and a record that serde_json
    -- writes on one line and reads back, the holder of a running entry's ticket completes it with
    -- an outcome that is no drop, and then sends the call again: the first is applied, takes the
    -- entry out of `queue.json` and writes its history line; the second is answered
    -- `already_applied` with the same fence and leaves the disk as it is.
    pub complete-twice :
        (later : World)
        → IsSound later
        → is_dropped outcome ≡ false
        → IsReadable x (completed_record w entry outcome)
        → locate (has_id lease.entry_id) (remove_at state.entries i) ≡ none
        → let d' = completed_disk w d state i (completed_record w entry outcome) in
          (fenced_mutation x w execution (complete outcome) d
            ≡ (d', ok (mutation_response applied (execution_fence x entry) none)))
          × (fenced_mutation x later execution (complete outcome) d'
              ≡ (d', ok (mutation_response already_applied (execution_fence x entry) none)))
    unfolding answer_finished exact_fence_matches
    complete-twice later s n h gone =
        let rec = completed_record w entry outcome in
        let here = locate_lem (has_id lease.entry_id) state.entries i entry e in
        (
          complete-applied,
          ground (
            arith,
            fenced_mutation-gone later (completed_disk w d state i rec) _
                (completed-ReadsAs later s) execution outcome lease l gone
                (history_bytes d ++ appended x (history_bytes d) (rec ∷ [])) rec refl
                (find_in-completed w d entry outcome h lease.entry_id here.1),
            n,
            m,
            finished-fence_parts_match w entry outcome execution execution.subject
                execution.queue_lease,
            finished-execution_fence w entry outcome,
            outcome-finished w entry outcome,
          ),
        )
