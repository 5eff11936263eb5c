-- ===== src/Service/Listing/Stored.antt =====
-- Invariants of the stored state through the reading calls.
use animus_queue_default.Common.{ℕ, String, Option, List, [], ◌∷◌}
use animus_queue_default.State.{DispatchQueueState}
use animus_queue_default.History.Record.{HistoryRecord}
use animus_queue_default.External.{External, World}
use animus_queue_default.Io.Keeps.{Keeps, Keeps-bind, Keeps-pure}
use animus_queue_default.Store.Stored.{IsStable, Stored, Keeps-acquire}
use animus_queue_default.Service.Base.{sweep_expired_entries}
use animus_queue_default.Service.Stored.{Keeps-commit, Keeps-default_plain}
use animus_queue_default.Service.Listing.{commit_swept, list, stats, next_deadline}

module _ (I : DispatchQueueState → Type 0) (H : Option (List ℕ) → Type 0) (stable : IsStable I H)
    (x : External) (w : World)
    (keep : (s : DispatchQueueState) → I s → I (sweep_expired_entries x w.now s).0) where
  Keeps-commit_swept :
      (s : DispatchQueueState) (records : List HistoryRecord)
      → I s
      → Keeps (Stored I H) (commit_swept x w s records)
  unfolding commit_swept
  Keeps-commit_swept s [] v = Keeps-pure _
  Keeps-commit_swept s (r ∷ rs) v = Keeps-commit x I H stable w s (r ∷ rs) v

  pub Keeps-next_deadline : Keeps (Stored I H) (next_deadline x w)
  unfolding next_deadline
  Keeps-next_deadline = Keeps-bind _ _ (Keeps-acquire I H w) (λ _.
      Keeps-default_plain I H stable w _
        (λ s v. Keeps-bind _ _ (Keeps-commit_swept _ _ (keep s v)) (λ _. Keeps-pure _)))

  pub Keeps-list :
      (status_filter : List String) (limit offset : Option ℕ)
      → Keeps (Stored I H) (list x w status_filter limit offset)
  unfolding list
  Keeps-list status_filter limit offset =
      Keeps-bind _ _ (Keeps-acquire I H w)
        (λ _. Keeps-default_plain I H stable w _ (λ s v. Keeps-pure _))

  pub Keeps-stats : Keeps (Stored I H) (stats x w)
  unfolding stats
  Keeps-stats =
      Keeps-bind _ _ (Keeps-acquire I H w)
        (λ _. Keeps-default_plain I H stable w _ (λ s v. Keeps-pure _))
