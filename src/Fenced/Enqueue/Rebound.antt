-- ===== src/Fenced/Enqueue/Rebound.antt =====
-- `queue/v2/enqueue` of src/fenced_queue.rs with a key that is bound to other content.
use animus_queue_default.Common.{
  ◌≢◌, Bool-cases, inl, inr, ◌≡◌, ◌∙◌, String, true, false, none, some, [], find, is_blank, trim,
  ok, err, arith, eq_iff, ◌==◌,
}
use animus_queue_default.Protocol.{QueueEnqueueV2Request}
use animus_queue_default.State.{DispatchQueueEntry, DispatchQueueState}
use animus_queue_default.State.Entry.{bound_request_hash}
use animus_queue_default.External.{External, World}
use animus_queue_default.Io.{Disk}
use animus_queue_default.History.{find_history_by_idempotency_key}
use animus_queue_default.RequestHash.Canonical.Decoded.{PrintsScalars}
use animus_queue_default.Store.{acquire_queue_lock}
use animus_queue_default.Store.Loading.{IsSound, ReadsAs, load_queue_state-full}
use animus_queue_default.Service.Base.{sweep_expired_entries, load_or_default, invalid_params}
use animus_queue_default.Fenced.Generation.{live_entry_for_subject, next_subject_generation}
use animus_queue_default.Fenced.Request.{Enqueued, read_request}
use animus_queue_default.Fenced.Request.Content.{IsSameContent, text_of, request_hash-IsSameContent}
use animus_queue_default.Fenced.Enqueue.{
  receipt, has_key, receipt_of, idempotent_receipt, replayed, find_holder, answer, new_entry,
  enqueue_v2, enqueue_validated,
}
use animus_queue_default.Fenced.Enqueue.Retried.{enqueue_v2-read}
use animus_queue_default.Fenced.Enqueue.Idempotency.{
  new-bound_request_hash, subject_at, added_state, added_disk, add-enqueued, added-ReadsAs,
  added-find,
}

module _ (x : External) where
  enqueue_validated-refuses :
      (w : World) (d : Disk) (state : DispatchQueueState)
      → ReadsAs w d state
      → sweep_expired_entries x w.now state ≡ (state, [])
      → (request : Enqueued) (key hash : String) → request.idempotency_key ≡ some key
      → (entry : DispatchQueueEntry) → find (has_key key) state.entries ≡ some entry
      → bound_request_hash entry key ≡ some hash
      → (hash == request.request_hash) ≡ false
      → enqueue_validated x w request d
        ≡ (d, err (invalid_params "idempotency_key is already bound to a different queue request"))
  unfolding enqueue_validated acquire_queue_lock load_or_default answer replayed idempotent_receipt
      find_holder receipt_of
  enqueue_validated-refuses w d state r swept request key hash k entry f b other = ground (
    arith,
    r.sound.locks,
    load_queue_state-full w d state r.sound.reads r.held r.current r.has_ids,
    swept,
    k,
    f,
    b,
    other,
  )

  other-hash : (s t : String) → (s ≢ t) → (s == t) ≡ false
  other-hash s t different = elim (Bool-cases (s == t)) [
    | inl e ↦ absurd (different ((eq_iff s t).0 e))
    | inr e ↦ e
  ]

  -- If serde_json prints scalars so that each text is that of one scalar, is cut off by what ends it,
  -- and begins as no array, no object and no end of one does: on a disk that works, an add with a key
  -- that no entry and no history line holds, for a subject without a live entry, is made, with a
  -- fresh entry id that is not blank. An add that follows it with the same key and other content,
  -- where more than the order of fields and `requested_at` differs, is refused and changes nothing,
  -- if the sweeps of both calls find nothing expired and sha256 tells the two texts apart.
  pub enqueue_v2-rebound :
      PrintsScalars x
      → (w later : World) (d : Disk) (state : DispatchQueueState) → ReadsAs w d state
      → IsSound later
      → is_blank (trim (w.uuid 0)) ≡ false
      → (request other : QueueEnqueueV2Request) (a b : Enqueued) → read_request x request ≡ ok a
      → read_request x other ≡ ok b
      → (key : String) → a.idempotency_key ≡ some key
      → b.idempotency_key ≡ some key
      → (x.sha256_hex (text_of x a) ≡ x.sha256_hex (text_of x b) → text_of x a ≡ text_of x b)
      → ¬ IsSameContent x a b
      → sweep_expired_entries x w.now state ≡ (state, [])
      → let state' = added_state x w a state in
        sweep_expired_entries x later.now state' ≡ (state', [])
        → find (has_key key) state.entries ≡ none
        → find_history_by_idempotency_key x w key d ≡ (d, ok none)
        → live_entry_for_subject state a.qualified_id ≡ none
        → let g = (next_subject_generation state a.qualified_id).1 in
          let d' = added_disk x w a d state in
          let subject = subject_at a.qualified_id g in
          (enqueue_v2 x w request d ≡ (d', ok (receipt true (w.uuid 0) subject none)))
          × (enqueue_v2 x later other d' ≡ (
            d',
            err (invalid_params "idempotency_key is already bound to a different queue request"),
          ))
  enqueue_v2-rebound prints w later d state r s fresh request other a b e f key k k' no_collision
        different swept swept' holder h live =
      let g = (next_subject_generation state a.qualified_id).1 in
      let d' = added_disk x w a d state in
      (
        enqueue_v2-read x w d request a e ∙ add-enqueued x w d state r swept a key k holder h live,
        enqueue_v2-read x later d' other b f
            ∙ enqueue_validated-refuses later d' (added_state x w a state)
                (added-ReadsAs x w later d state r s fresh a) swept' b key a.request_hash k'
                (new_entry x w a g) (added-find x w state a key k holder)
                (new-bound_request_hash x w a g key k)
                (other-hash a.request_hash b.request_hash (λ same.
                  different
                    (request_hash-IsSameContent x prints request other a b e f no_collision same))),
      )
