-- ===== src/Fenced/Enqueue/Retried.antt =====
-- `queue/v2/enqueue` of src/fenced_queue.rs, tried again by the CLI, which stamps each attempt with
-- the time of that attempt.
use animus_queue_default.Common.{
  ◌≡◌, refl, String, true, false, none, some, [], find, is_blank, trim, ok, ◌∙◌,
}
use animus_queue_default.Protocol.{QueueEnqueueV2Request}
use animus_queue_default.State.{DispatchQueueState}
use animus_queue_default.External.{External, World}
use animus_queue_default.Io.{Disk}
use animus_queue_default.History.{find_history_by_idempotency_key}
use animus_queue_default.RequestHash.Content.{StampsField}
use animus_queue_default.Store.Loading.{IsSound, ReadsAs}
use animus_queue_default.Service.Base.{sweep_expired_entries}
use animus_queue_default.Fenced.Generation.{live_entry_for_subject, next_subject_generation}
use animus_queue_default.Fenced.Request.{Enqueued, read_request}
use animus_queue_default.Fenced.Request.Attempts.{tried_at, validated_at, read_request-tried_at}
use animus_queue_default.Fenced.Enqueue.{receipt, has_key, enqueue_v2, enqueue_validated}
use animus_queue_default.Fenced.Enqueue.Idempotency.{
  subject_at, added_state, added_disk, enqueue-again,
}

module _ (x : External) where
  -- A call of a request that is read is the call of what is read of it.
  pub enqueue_v2-read :
      (w : World) (d : Disk) (request : QueueEnqueueV2Request) (validated : Enqueued)
      → read_request x request ≡ ok validated
      → enqueue_v2 x w request d ≡ enqueue_validated x w validated d
  unfolding enqueue_v2
  enqueue_v2-read w d request validated e = rw e refl

  -- If serde_json writes `requested_at` to the field of that name only, and the protocol's
  -- validation does not look at it: on a disk that works, an add with a key that no entry and no
  -- history line holds, for a subject without a live entry, is made, with a fresh entry id that is
  -- not blank. When it is tried again at another time, and the sweeps of both calls find nothing
  -- expired, the second call changes nothing and answers with the same entry and generation.
  pub enqueue_v2-tried_at :
      StampsField x
      → (w later : World) (d : Disk) (state : DispatchQueueState) → ReadsAs w d state
      → IsSound later
      → is_blank (trim (w.uuid 0)) ≡ false
      → (at : String) (request : QueueEnqueueV2Request) (validated : Enqueued)
      → x.validate_enqueue (tried_at at request) ≡ x.validate_enqueue request
      → read_request x request ≡ ok validated
      → (key : String) → validated.idempotency_key ≡ some key
      → sweep_expired_entries x w.now state ≡ (state, [])
      → let state' = added_state x w validated state in
        sweep_expired_entries x later.now state' ≡ (state', [])
        → find (has_key key) state.entries ≡ none
        → find_history_by_idempotency_key x w key d ≡ (d, ok none)
        → live_entry_for_subject state validated.qualified_id ≡ none
        → let g = (next_subject_generation state validated.qualified_id).1 in
          let d' = added_disk x w validated d state in
          let subject = subject_at validated.qualified_id g in
          (enqueue_v2 x w request d ≡ (d', ok (receipt true (w.uuid 0) subject none)))
          × (enqueue_v2 x later (tried_at at request) d'
              ≡ (d', ok (receipt false (w.uuid 0) subject none)))
  enqueue_v2-tried_at stamps w later d state r s fresh at request validated valid e key k swept
        swept' f h live =
      let again =
        enqueue-again x w later d state r s fresh validated (validated_at at validated) key k k refl
          swept swept' f h live in
      let d' = added_disk x w validated d state in
      (
        enqueue_v2-read w d request validated e ∙ again.0,
        enqueue_v2-read later d' (tried_at at request) (validated_at at validated)
              (read_request-tried_at x stamps at request validated valid e)
            ∙ again.1,
      )
