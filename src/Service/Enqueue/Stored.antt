-- ===== src/Service/Enqueue/Stored.antt =====
-- Invariants of the stored state through `queue/enqueue`.
use animus_queue_default.Common.{
  ℕ, String, Option, none, some, [], ◌∷◌, ◌++◌, filter_opt, is_some, List,
}
use animus_queue_default.Protocol.{SubjectDispatch}
use animus_queue_default.State.{DispatchQueueState}
use animus_queue_default.State.Entry.{from_dispatch}
use animus_queue_default.External.{External, World}
use animus_queue_default.Identity.{dispatch_legacy_key}
use animus_queue_default.Io.Keeps.{Keeps, Keeps-bind, Keeps-lift, Keeps-pure, Keeps-raise}
use animus_queue_default.Store.Stored.{IsStable, Stored, Keeps-acquire}
use animus_queue_default.Service.Base.{QueueCallError, sweep_expired_entries}
use animus_queue_default.Service.Stored.{Keeps-commit, Keeps-default_bind}
use animus_queue_default.Service.Enqueue.{enqueue_subject, enqueue}

module _ (I : DispatchQueueState → Type 0) (H : Option (List ℕ) → Type 0) (stable : IsStable I H)
    (x : External) (w : World)
    (keep : (dispatch : SubjectDispatch) (run_at : Option String) (expire : Option ℕ)
      → (s : DispatchQueueState) → I s
      → let swept = (sweep_expired_entries x w.now s).0 in
        I (record swept {
          entries = swept.entries ++ from_dispatch x w dispatch run_at expire ∷ [];
        })) where
  Keeps-enqueue_subject :
      (key : Option String) (dispatch : SubjectDispatch) (run_at : Option String)
      → (expire : Option ℕ) → Keeps (Stored I H) (enqueue_subject x w key dispatch run_at expire)
  unfolding enqueue_subject
  Keeps-enqueue_subject none dispatch run_at expire = Keeps-raise _
  Keeps-enqueue_subject (some id) dispatch run_at expire =
      Keeps-bind _ _ (Keeps-lift QueueCallError.backend _ (Keeps-acquire I H w)) (λ _.
        Keeps-default_bind I H stable QueueCallError.backend w _ (λ s v.
          Keeps-bind _ _
            (Keeps-lift QueueCallError.backend _ (
              Keeps-commit x I H stable w _ _ (
                keep dispatch (filter_opt (λ raw. is_some (x.parse_from_rfc3339 raw)) run_at) expire
                  s v)))
            (λ _. Keeps-pure _)))

  pub Keeps-enqueue :
      (dispatch : SubjectDispatch) (run_at : Option String) (expire : Option ℕ)
      → Keeps (Stored I H) (enqueue x w dispatch run_at expire)
  unfolding enqueue
  Keeps-enqueue dispatch run_at expire =
      Keeps-enqueue_subject (dispatch_legacy_key dispatch) dispatch run_at expire
