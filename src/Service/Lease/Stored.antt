-- ===== src/Service/Lease/Stored.antt =====
-- Invariants of the stored state through `queue/lease`.
use animus_queue_default.Common.{
  ℕ, String, Option, List, [], eqb, length, is_none_or, not, unwrap_or,
}
use animus_queue_default.Protocol.{QueueEntry}
use animus_queue_default.State.{DispatchQueueState}
use animus_queue_default.History.Record.{HistoryRecord}
use animus_queue_default.External.{External, World}
use animus_queue_default.Io.Keeps.{Keeps, Keeps-bind, Keeps-lift, Keeps-pure, Keeps-raise, Keeps-if}
use animus_queue_default.Store.Stored.{IsStable, Stored, Keeps-acquire}
use animus_queue_default.Service.Base.{QueueBackend, QueueLeaseError}
use animus_queue_default.Service.Stored.{Keeps-commit, Keeps-default_bind}
use animus_queue_default.Service.Lease.{commit_changed, lease_state, lease}

module _ (I : DispatchQueueState → Type 0) (H : Option (List ℕ) → Type 0) (stable : IsStable I H)
    (x : External) (b : QueueBackend) (w : World)
    (keep : (max : ℕ) (workflow_ids : Option (List String)) (exclude : List String)
      → (s : DispatchQueueState) → I s
      → I (lease_state x b w max workflow_ids exclude s).0) where
  Keeps-commit_changed :
      (s : DispatchQueueState) (leased : List QueueEntry) (records : List HistoryRecord)
      → I s
      → Keeps (Stored I H) (commit_changed x b w s leased records)
  unfolding commit_changed
  Keeps-commit_changed s [] [] v = Keeps-pure _
  Keeps-commit_changed s leased records v =
      Keeps-bind _ _
        (Keeps-lift QueueLeaseError.backend _ (Keeps-commit x I H stable w s records v))
        (λ _. Keeps-pure _)

  pub Keeps-lease :
      (max : ℕ) (workflow_ids exclude : Option (List String))
      → Keeps (Stored I H) (lease x b w max workflow_ids exclude)
  unfolding lease
  Keeps-lease max workflow_ids exclude =
      Keeps-if (not (is_none_or (λ ids. eqb (length ids) max) workflow_ids)) _ _
        (λ _. Keeps-raise _)
        (λ _.
          Keeps-if (eqb max 0) _ _ (λ _. Keeps-pure _)
            (λ _. Keeps-bind _ _ (Keeps-lift QueueLeaseError.backend _ (Keeps-acquire I H w)) (λ _.
              Keeps-default_bind I H stable QueueLeaseError.backend w _ (λ s v.
                Keeps-commit_changed _ _ _ (keep max workflow_ids (unwrap_or exclude []) s v)))))
