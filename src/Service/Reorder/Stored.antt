-- ===== src/Service/Reorder/Stored.antt =====
-- Invariants of the stored state through `queue/reorder`.
use animus_queue_default.Common.{String, Option, none, some, List, eqb, ℕ}
use animus_queue_default.State.{DispatchQueueState}
use animus_queue_default.External.{World}
use animus_queue_default.Io.Keeps.{Keeps, Keeps-bind, Keeps-pure, Keeps-if}
use animus_queue_default.Store.Stored.{
  IsStable, Stored, StateHolds, Keeps-acquire, Keeps-save, Keeps-load_plain,
}
use animus_queue_default.Service.Reorder.{reordered, moved_count, reorder_loaded, reorder}

module _ (I : DispatchQueueState → Type 0) (H : Option (List ℕ) → Type 0) (stable : IsStable I H)
    (w : World) (ids : List String)
    (keep : (s : DispatchQueueState)
      → I s
      → I (record s { entries = reordered ids s.entries })) where
  Keeps-reorder_loaded :
      (loaded : Option DispatchQueueState)
      → StateHolds I loaded
      → Keeps (Stored I H) (reorder_loaded w ids loaded)
  unfolding reorder_loaded
  Keeps-reorder_loaded none v = Keeps-pure _
  Keeps-reorder_loaded (some s) v =
      Keeps-if (eqb (moved_count (reordered ids s.entries) s.entries) 0) _ _ (λ _. Keeps-pure _)
        (λ _. Keeps-bind _ _ (Keeps-save I H stable w _ (keep s v)) (λ _. Keeps-pure _))

  pub Keeps-reorder : Keeps (Stored I H) (reorder w ids)
  unfolding reorder
  Keeps-reorder =
      Keeps-bind _ _ (Keeps-acquire I H w)
        (λ _. Keeps-load_plain I H stable w _ Keeps-reorder_loaded)
