-- ===== src/Fenced/Enqueue/Stored.antt =====
-- Invariants of the stored state through `queue/v2/enqueue`.
use animus_queue_default.Common.{
  ℕ, ◌≡◌, refl, String, Option, none, some, List, [], ◌∷◌, ◌++◌, set, get_elem?, unwrap_or, Result,
  ok, err, arith,
}
use animus_queue_default.Protocol.{SubjectGeneration, QueueEnqueueV2Request, QueueEnqueueV2Response}
use animus_queue_default.State.{DispatchQueueEntry, DispatchQueueState}
use animus_queue_default.History.{find_history_by_idempotency_key}
use animus_queue_default.History.Record.{HistoryRecord}
use animus_queue_default.External.{External, World}
use animus_queue_default.Io.Keeps.{
  Keeps, Keeps-bind, Keeps-lift, Keeps-lift_result, Keeps-pure, Keeps-raise,
}
use animus_queue_default.Store.Stored.{IsStable, Stored, Keeps-acquire}
use animus_queue_default.Service.Base.{QueueCallError, sweep_expired_entries}
use animus_queue_default.Service.Stored.{Keeps-commit, Keeps-default_bind}
use animus_queue_default.Fenced.Generation.{
  ensure_ticket_identity, live_entry_for_subject, next_subject_generation,
}
use animus_queue_default.Fenced.Generation.Location.{live_entry_for_subject-get_elem?}
use animus_queue_default.Fenced.Request.{Enqueued, read_request}
use animus_queue_default.Fenced.Enqueue.{
  find_holder, replayed, commit_swept, bind_key, reuse_ticketed, new_entry, place, answer,
  enqueue_v2,
}

module _ (I : DispatchQueueState → Type 0) (H : Option (List ℕ) → Type 0) (stable : IsStable I H)
    (x : External) (w : World)
    (keep_sweep : (s : DispatchQueueState) → I s → I (sweep_expired_entries x w.now s).0)
    (keep_ticket : (s : DispatchQueueState) (i : ℕ) (old : DispatchQueueEntry)
      → I s
      → get_elem? s.entries i ≡ some old
      → I (ensure_ticket_identity s i old).0)
    (keep_key : (key : Option String) (hash : String) (s : DispatchQueueState) (i : ℕ)
      → (old : DispatchQueueEntry) → I s
      → I (record s {
        entries = set s.entries i (bind_key x w key hash (unwrap_or (get_elem? s.entries i) old));
      }))
    (keep_add : (request : Enqueued) (s : DispatchQueueState)
      → I s
      → let added = next_subject_generation s request.qualified_id in
        I (record added.0 {
          entries = added.0.entries ++ new_entry x w request added.1 ∷ [];
        })) where
  Keeps-find_holder :
      (key : String) (live : Option DispatchQueueEntry)
      → Keeps (Stored I H) (find_holder x w key live)
  unfolding find_holder find_history_by_idempotency_key
  Keeps-find_holder key (some entry) = Keeps-pure _
  Keeps-find_holder key none = record { at = λ d h. ground arith }

  Keeps-replayed :
      (s : DispatchQueueState) (swept : List HistoryRecord) (key : Option String) (hash : String)
      → Keeps (Stored I H) (replayed x w s swept key hash)
  unfolding replayed
  Keeps-replayed s swept none hash = Keeps-pure _
  Keeps-replayed s swept (some key) hash =
      Keeps-bind _ _ (Keeps-find_holder key _) (λ _. Keeps-lift_result _)

  Keeps-commit_swept :
      (s : DispatchQueueState) (swept : List HistoryRecord)
      → I s
      → Keeps (Stored I H) (commit_swept x w s swept)
  unfolding commit_swept
  Keeps-commit_swept s [] v = Keeps-pure _
  Keeps-commit_swept s (r ∷ rs) v =
      Keeps-lift QueueCallError.backend _ (Keeps-commit x I H stable w s (r ∷ rs) v)

  Keeps-reuse_ticketed :
      (request : Enqueued) (swept : List HistoryRecord) (i : ℕ) (old : DispatchQueueEntry)
      → (ticketed : DispatchQueueState × Result String SubjectGeneration) → I ticketed.0
      → Keeps (Stored I H) (reuse_ticketed x w request swept i old ticketed)
  unfolding reuse_ticketed
  Keeps-reuse_ticketed request swept i old (s, err message) v = Keeps-raise _
  Keeps-reuse_ticketed request swept i old (s, ok subject) v =
      Keeps-bind _ _
        (Keeps-lift QueueCallError.backend _
          (Keeps-commit x I H stable w _ swept (keep_key _ _ s i old v)))
        (λ _. Keeps-pure _)

  Keeps-place :
      (request : Enqueued) (s : DispatchQueueState) (swept : List HistoryRecord)
      → (live : Option (ℕ × DispatchQueueEntry))
      → live_entry_for_subject s request.qualified_id ≡ live
      → I s
      → Keeps (Stored I H) (place x w request s swept live)
  unfolding place
  Keeps-place request s swept (some (i, old)) l v =
      Keeps-reuse_ticketed request swept i old (ensure_ticket_identity s i old)
        (keep_ticket s i old v (live_entry_for_subject-get_elem? s request.qualified_id i old l))
  Keeps-place request s swept none l v =
      Keeps-bind _ _
        (Keeps-lift QueueCallError.backend _
          (Keeps-commit x I H stable w _ swept (keep_add request s v)))
        (λ _. Keeps-pure _)

  Keeps-answer :
      (request : Enqueued) (s : DispatchQueueState) (swept : List HistoryRecord)
      → (original : Option QueueEnqueueV2Response) → I s
      → Keeps (Stored I H) (answer x w request s swept original)
  unfolding answer
  Keeps-answer request s swept (some original) v =
      Keeps-bind _ _ (Keeps-commit_swept s swept v) (λ _. Keeps-pure _)
  Keeps-answer request s swept none v =
      Keeps-place request s swept (live_entry_for_subject s request.qualified_id) refl v

  pub Keeps-enqueue_v2 :
      (request : QueueEnqueueV2Request) → Keeps (Stored I H) (enqueue_v2 x w request)
  unfolding enqueue_v2
  Keeps-enqueue_v2 request =
      Keeps-bind _ _ (Keeps-lift_result (read_request x request)) (λ validated.
        Keeps-bind _ _ (Keeps-lift QueueCallError.backend _ (Keeps-acquire I H w)) (λ _.
          Keeps-default_bind I H stable QueueCallError.backend w _ (λ s v.
            let swept = sweep_expired_entries x w.now s in
            Keeps-bind _ _
              (Keeps-replayed swept.0 swept.1 validated.idempotency_key validated.request_hash)
              (λ original. Keeps-answer validated swept.0 swept.1 original (keep_sweep s v)))))
