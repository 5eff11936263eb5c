-- ===== src/Service/Mutations/Stored.antt =====
-- Invariants of the stored state through the calls of src/queue_service.rs that change one entry.
use animus_queue_default.Common.{
  ℕ, ◌≡◌, refl, String, Bool, true, false, Option, none, some, locate, locate_lem, get_elem?, set,
  remove_at, Result, ok, err, not, List,
}
use animus_queue_default.State.{DispatchQueueEntry, DispatchQueueState, assigned, status_eq}
use animus_queue_default.State.Entry.{is_ticketed}
use animus_queue_default.History.Record.{HistoryOutcome, from_completion_status}
use animus_queue_default.External.{External, World}
use animus_queue_default.Io.Keeps.{Keeps, Keeps-bind, Keeps-lift, Keeps-pure, Keeps-raise, Keeps-if}
use animus_queue_default.Store.Stored.{
  IsStable, Stored, StateHolds, Keeps-acquire, Keeps-save, Keeps-load_bind, Keeps-load_plain,
}
use animus_queue_default.Service.Base.{QueueMutationError, QueueReleasePendingError}
use animus_queue_default.Service.Stored.{Keeps-commit}
use animus_queue_default.Service.Mutations.{
  MutationError, Mutation, has_id, save_mutated, mutate_found, mutate_loaded, mutate_entry,
  remove_found, drop_loaded, drop_entry, complete_loaded, complete_status, completion,
  released_entry, release_found, release_loaded, release_pending,
}

module _ (I : DispatchQueueState → Type 0) (H : Option (List ℕ) → Type 0)
    (stable : IsStable I H) where
  module _ (w : World) (entry_id : String) (mutate : Mutation)
      (keep : (s : DispatchQueueState) (i : ℕ) (old new : DispatchQueueEntry)
        → I s
        → get_elem? s.entries i ≡ some old
        → mutate old ≡ ok (new, true)
        → I (record s { entries = set s.entries i new })) where
    Keeps-save_mutated :
        (s : DispatchQueueState) (i : ℕ) (old : DispatchQueueEntry)
        → I s
        → get_elem? s.entries i ≡ some old
        → (r : Result MutationError (DispatchQueueEntry × Bool)) → mutate old ≡ r
        → Keeps (Stored I H) (save_mutated w entry_id s i r)
    unfolding save_mutated
    Keeps-save_mutated s i old v e (err f) m = Keeps-raise _
    Keeps-save_mutated s i old v e (ok (new, false)) m = Keeps-pure _
    Keeps-save_mutated s i old v e (ok (new, true)) m =
        Keeps-bind _ _
          (Keeps-lift QueueMutationError.backend _ (
            Keeps-save I H stable w (record s { entries = set s.entries i new })
              (keep s i old new v e m)))
          (λ _. Keeps-pure _)

    Keeps-mutate_found :
        (s : DispatchQueueState)
        → I s
        → (found : Option (ℕ × DispatchQueueEntry)) → locate (has_id entry_id) s.entries ≡ found
        → Keeps (Stored I H) (mutate_found w entry_id mutate s found)
    unfolding mutate_found
    Keeps-mutate_found s v none l = Keeps-pure _
    Keeps-mutate_found s v (some (i, old)) l =
        Keeps-save_mutated s i old v (locate_lem (has_id entry_id) s.entries i old l).0 (mutate old)
          refl

    Keeps-mutate_loaded :
        (loaded : Option DispatchQueueState)
        → StateHolds I loaded
        → Keeps (Stored I H) (mutate_loaded w entry_id mutate loaded)
    unfolding mutate_loaded
    Keeps-mutate_loaded none v = Keeps-pure _
    Keeps-mutate_loaded (some s) v =
        Keeps-mutate_found s v (locate (has_id entry_id) s.entries) refl

    pub Keeps-mutate_entry : Keeps (Stored I H) (mutate_entry w entry_id mutate)
    unfolding mutate_entry
    Keeps-mutate_entry =
        Keeps-bind _ _ (Keeps-lift QueueMutationError.backend _ (Keeps-acquire I H w))
          (λ _. Keeps-load_bind I H stable QueueMutationError.backend w _ Keeps-mutate_loaded)

  module _ (x : External) (w : World)
      (keep : (s : DispatchQueueState) (i : ℕ)
        → I s
        → I (record s { entries = remove_at s.entries i })) where
    Keeps-remove_found :
        (s : DispatchQueueState) (outcome : HistoryOutcome) (method : String)
        → (found : Option (ℕ × DispatchQueueEntry)) → I s
        → Keeps (Stored I H) (remove_found x w s outcome method found)
    unfolding remove_found
    Keeps-remove_found s outcome method none v = Keeps-pure _
    Keeps-remove_found s outcome method (some (i, old)) v =
        Keeps-bind _ _ (Keeps-commit x I H stable w _ _ (keep s i v)) (λ _. Keeps-pure _)

    Keeps-drop_loaded :
        (entry_id : String) (loaded : Option DispatchQueueState)
        → StateHolds I loaded
        → Keeps (Stored I H) (drop_loaded x w entry_id loaded)
    unfolding drop_loaded
    Keeps-drop_loaded entry_id none v = Keeps-pure _
    Keeps-drop_loaded entry_id (some s) v = Keeps-remove_found s _ _ _ v

    pub Keeps-drop_entry : (entry_id : String) → Keeps (Stored I H) (drop_entry x w entry_id)
    unfolding drop_entry
    Keeps-drop_entry entry_id =
        Keeps-bind _ _ (Keeps-acquire I H w)
          (λ _. Keeps-load_plain I H stable w _ (Keeps-drop_loaded entry_id))

    Keeps-complete_loaded :
        (outcome : HistoryOutcome) (entry_id : String) (workflow_ref workflow_id : Option String)
        → (loaded : Option DispatchQueueState) → StateHolds I loaded
        → Keeps (Stored I H) (complete_loaded x w outcome entry_id workflow_ref workflow_id loaded)
    unfolding complete_loaded
    Keeps-complete_loaded outcome entry_id workflow_ref workflow_id none v = Keeps-pure _
    Keeps-complete_loaded outcome entry_id workflow_ref workflow_id (some s) v =
        Keeps-remove_found s _ _ _ v

    Keeps-complete_status :
        (status : String) (outcome : Option HistoryOutcome) (entry_id : String)
        → (workflow_ref workflow_id : Option String)
        → Keeps (Stored I H) (complete_status x w status outcome entry_id workflow_ref workflow_id)
    unfolding complete_status
    Keeps-complete_status status none entry_id workflow_ref workflow_id = Keeps-raise _
    Keeps-complete_status status (some outcome) entry_id workflow_ref workflow_id =
        Keeps-bind _ _ (Keeps-acquire I H w) (λ _.
          Keeps-load_plain I H stable w _
            (Keeps-complete_loaded outcome entry_id workflow_ref workflow_id))

    pub Keeps-completion :
        (entry_id status : String) (workflow_ref workflow_id : Option String)
        → Keeps (Stored I H) (completion x w entry_id status workflow_ref workflow_id)
    unfolding completion
    Keeps-completion entry_id status workflow_ref workflow_id =
        Keeps-complete_status status (from_completion_status status) entry_id workflow_ref
          workflow_id

  module _ (x : External) (w : World) (reason : String)
      (keep : (s : DispatchQueueState) (i : ℕ) (old : DispatchQueueEntry)
        → I s
        → get_elem? s.entries i ≡ some old
        → is_ticketed old ≡ false
        → I (record s { entries = set s.entries i (released_entry x w reason old) })) where
    Keeps-release_found :
        (entry_id : String) (s : DispatchQueueState)
        → I s
        → (found : Option (ℕ × DispatchQueueEntry)) → locate (has_id entry_id) s.entries ≡ found
        → Keeps (Stored I H) (release_found x w entry_id reason s found)
    unfolding release_found
    Keeps-release_found entry_id s v none l = Keeps-raise _
    Keeps-release_found entry_id s v (some (i, old)) l =
        Keeps-if (is_ticketed old) _ _ (λ _. Keeps-raise _)
          (λ plain.
            Keeps-if (not (status_eq old.status assigned)) _ _ (λ _. Keeps-raise _)
              (λ _.
                Keeps-bind _ _
                  (Keeps-lift QueueReleasePendingError.backend _ (
                    Keeps-save I H stable w _
                      (keep s i old v (locate_lem (has_id entry_id) s.entries i old l).0 plain)))
                  (λ _. Keeps-pure _)))

    Keeps-release_loaded :
        (entry_id : String) (loaded : Option DispatchQueueState)
        → StateHolds I loaded
        → Keeps (Stored I H) (release_loaded x w entry_id reason loaded)
    unfolding release_loaded
    Keeps-release_loaded entry_id none v = Keeps-raise _
    Keeps-release_loaded entry_id (some s) v =
        Keeps-release_found entry_id s v (locate (has_id entry_id) s.entries) refl

    pub Keeps-release_pending :
        (entry_id : String) → Keeps (Stored I H) (release_pending x w entry_id reason)
    unfolding release_pending
    Keeps-release_pending entry_id =
        Keeps-bind _ _ (Keeps-lift QueueReleasePendingError.backend _ (Keeps-acquire I H w)) (λ _.
          Keeps-load_bind I H stable QueueReleasePendingError.backend w _
            (Keeps-release_loaded entry_id))
