-- ===== src/Fenced/Enqueue/Idempotency.antt =====
-- An add of src/fenced_queue.rs that is sent twice with one idempotency key.
use animus_queue_default.Common.{
  ℕ, ◌≡◌, refl, String, Bool, true, false, none, some, List, [], ◌∷◌, ◌++◌, All-append, arith, find,
  is_blank, trim, ok, eq_refl, sym, ap, ◌∙◌,
}
use animus_queue_default.Protocol.{SubjectGeneration, QueueEnqueueV2Response}
use animus_queue_default.State.{DispatchQueueEntry, DispatchQueueState, queue_format_version}
use animus_queue_default.State.Entry.{bound_request_hash}
use animus_queue_default.External.{External, World}
use animus_queue_default.Io.{Disk, full}
use animus_queue_default.History.{append_history, find_history_by_idempotency_key}
use animus_queue_default.Store.{acquire_queue_lock}
use animus_queue_default.Store.Loading.{
  IsSound, ReadsAs, save_queue_state_sound, load_queue_state-full,
}
use animus_queue_default.Service.Base.{commit, load_or_default, sweep_expired_entries}
use animus_queue_default.Fenced.Generation.{live_entry_for_subject, next_subject_generation}
use animus_queue_default.Fenced.Request.{Enqueued}
use animus_queue_default.Fenced.Enqueue.{
  receipt, has_key, receipt_of, receipt_parts, idempotent_receipt, replayed, find_holder, answer,
  place, add_entry, new_entry, commit_swept, enqueue_validated, history_entry,
}

find-append_one :
    {A : Type 0} (p : A → Bool) (xs : List A) (y : A)
    → find p xs ≡ none
    → p y ≡ true
    → find p (xs ++ y ∷ []) ≡ some y
find-append_one p [] y e h = ground arith
find-append_one p (x ∷ xs) y e h = ground (arith, find-append_one p xs y)

abbrev pub subject_at : String → ℕ → SubjectGeneration
subject_at id generation = record { qualified_id = id; generation = generation }

-- The receipt of an add that was made before.
abbrev pub receipt_again : DispatchQueueEntry → String → ℕ → QueueEnqueueV2Response
receipt_again entry id generation =
    receipt false entry.entry_id (record { qualified_id = id; generation = generation }) none

module _ (x : External) where
  -- The entry of an add with a key is bound to that key and to the add's content.
  pub new-bound_request_hash :
      (w : World) (request : Enqueued) (g : ℕ) (key : String)
      → request.idempotency_key ≡ some key
      → bound_request_hash (new_entry x w request g) key ≡ some request.request_hash
  unfolding bound_request_hash new_entry
  new-bound_request_hash w request g key e = ground (arith, e, eq_refl key)

  -- On a disk that works, an add whose key and content an entry of the queue is bound to is
  -- answered with that entry's receipt and changes nothing.
  pub enqueue_validated-replays :
      (w : World) (d : Disk) (state : DispatchQueueState)
      → ReadsAs w d state
      → sweep_expired_entries x w.now state ≡ (state, [])
      → (request : Enqueued) (key : String) → request.idempotency_key ≡ some key
      → (entry : DispatchQueueEntry) (id : String) (g : ℕ)
      → find (has_key key) state.entries ≡ some entry
      → bound_request_hash entry key ≡ some request.request_hash
      → entry.subject_id ≡ some id
      → entry.subject_generation ≡ some g
      → enqueue_validated x w request d ≡ (d, ok (receipt_again entry id g))
  unfolding enqueue_validated acquire_queue_lock load_or_default answer replayed idempotent_receipt
      find_holder receipt_of receipt_parts commit_swept
  enqueue_validated-replays w d state r swept request key k entry id g f b s t = ground (
    arith,
    r.sound.locks,
    load_queue_state-full w d state r.sound.reads r.held r.current r.has_ids,
    swept,
    k,
    f,
    b,
    eq_refl request.request_hash,
    s,
    t,
  )

  -- What an add of a new subject makes of the state.
  abbrev pub added_state : World → Enqueued → DispatchQueueState → DispatchQueueState
  added_state w request state =
      let (counted, g) = next_subject_generation state request.qualified_id in
      record counted {
        format_version = queue_format_version;
        entries = counted.entries ++ new_entry x w request g ∷ [];
      }

  abbrev pub added_disk : World → Enqueued → Disk → DispatchQueueState → Disk
  added_disk w request d state = record d { queue_json = some (full (added_state w request state)) }

  pub add-enqueued :
      (w : World) (d : Disk) (state : DispatchQueueState)
      → ReadsAs w d state
      → sweep_expired_entries x w.now state ≡ (state, [])
      → (request : Enqueued) (key : String) → request.idempotency_key ≡ some key
      → find (has_key key) state.entries ≡ none
      → find_history_by_idempotency_key x w key d ≡ (d, ok none)
      → live_entry_for_subject state request.qualified_id ≡ none
      → let g = (next_subject_generation state request.qualified_id).1 in
        enqueue_validated x w request d ≡ (
          added_disk w request d state,
          ok (
              receipt true
                (w.uuid 0)
                (record { qualified_id = request.qualified_id; generation = g })
                none),
        )
  unfolding enqueue_validated acquire_queue_lock load_or_default answer replayed idempotent_receipt
      find_holder receipt_of history_entry place add_entry commit append_history new_entry
  add-enqueued w d state r swept request key k f h live =
      let (counted, g) = next_subject_generation state request.qualified_id in
      ground (
        arith,
        r.sound.locks,
        load_queue_state-full w d state r.sound.reads r.held r.current r.has_ids,
        swept,
        k,
        f,
        h,
        live,
        save_queue_state_sound w d
            (record counted { entries = counted.entries ++ new_entry x w request g ∷ [] })
            r.sound.saving,
      )

  -- After an add with a fresh entry id that is not blank, the new state is what is read.
  pub added-ReadsAs :
      (w later : World) (d : Disk) (state : DispatchQueueState)
      → ReadsAs w d state
      → IsSound later
      → is_blank (trim (w.uuid 0)) ≡ false
      → (request : Enqueued)
      → ReadsAs later (added_disk w request d state) (added_state w request state)
  unfolding new_entry next_subject_generation
  added-ReadsAs w later d state r s fresh request =
      let g = (next_subject_generation state request.qualified_id).1 in
      record {
        sound = s;
        held = refl;
        current = omega arith;
        has_ids =
            All-append (λ (e : DispatchQueueEntry). is_blank (trim e.entry_id) ≡ false)
              state.entries (new_entry x w request g ∷ []) r.has_ids (fresh, tt);
      }

  -- The new entry is the one that holds the key.
  pub added-find :
      (w : World) (state : DispatchQueueState) (request : Enqueued) (key : String)
      → request.idempotency_key ≡ some key
      → find (has_key key) state.entries ≡ none
      → find (has_key key) (added_state w request state).entries
        ≡ some (new_entry x w request (next_subject_generation state request.qualified_id).1)
  unfolding has_key next_subject_generation
  added-find w state request key k f =
      let g = (next_subject_generation state request.qualified_id).1 in
      find-append_one (has_key key) state.entries (new_entry x w request g) f
        (ground (arith, new-bound_request_hash w request g key k))

  -- An add, and another with the same key and content hash behind it.
  pub enqueue-again :
      (w later : World) (d : Disk) (state : DispatchQueueState)
      → ReadsAs w d state
      → IsSound later
      → is_blank (trim (w.uuid 0)) ≡ false
      → (request retry : Enqueued) (key : String) → request.idempotency_key ≡ some key
      → retry.idempotency_key ≡ some key
      → retry.request_hash ≡ request.request_hash
      → sweep_expired_entries x w.now state ≡ (state, [])
      → let state' = added_state w request state in
        sweep_expired_entries x later.now state' ≡ (state', [])
        → find (has_key key) state.entries ≡ none
        → find_history_by_idempotency_key x w key d ≡ (d, ok none)
        → live_entry_for_subject state request.qualified_id ≡ none
        → let g = (next_subject_generation state request.qualified_id).1 in
          let d' = added_disk w request d state in
          let subject = subject_at request.qualified_id g in
          (enqueue_validated x w request d ≡ (d', ok (receipt true (w.uuid 0) subject none)))
          × (enqueue_validated x later retry d' ≡ (d', ok (receipt false (w.uuid 0) subject none)))
  unfolding new_entry
  enqueue-again w later d state r s fresh request retry key k k' hash swept swept' f h live =
      let g = (next_subject_generation state request.qualified_id).1 in
      (
        add-enqueued w d state r swept request key k f h live,
        enqueue_validated-replays later (added_disk w request d state) (added_state w request state)
            (added-ReadsAs w later d state r s fresh request) swept' retry key k'
            (new_entry x w request g) request.qualified_id g (added-find w state request key k f)
            (new-bound_request_hash w request g key k ∙ ap some (sym hash)) refl refl,
      )

  -- On a disk that works, an add with a key that no entry and no history line holds, for a subject
  -- without a live entry, is made, with a fresh entry id that is not blank. When it is sent again,
  -- and the sweeps of both calls find nothing expired, the second call changes nothing and answers
  -- with the same entry and generation, as not enqueued.
  pub enqueue-twice :
      (w later : World) (d : Disk) (state : DispatchQueueState)
      → ReadsAs w d state
      → IsSound later
      → is_blank (trim (w.uuid 0)) ≡ false
      → (request : Enqueued) (key : String) → request.idempotency_key ≡ some key
      → sweep_expired_entries x w.now state ≡ (state, [])
      → let state' = added_state w request state in
        sweep_expired_entries x later.now state' ≡ (state', [])
        → find (has_key key) state.entries ≡ none
        → find_history_by_idempotency_key x w key d ≡ (d, ok none)
        → live_entry_for_subject state request.qualified_id ≡ none
        → let g = (next_subject_generation state request.qualified_id).1 in
          let d' = added_disk w request d state in
          let subject = subject_at request.qualified_id g in
          (enqueue_validated x w request d ≡ (d', ok (receipt true (w.uuid 0) subject none)))
          × (enqueue_validated x later request d'
              ≡ (d', ok (receipt false (w.uuid 0) subject none)))
  enqueue-twice w later d state r s fresh request key k swept swept' f h live =
      enqueue-again w later d state r s fresh request request key k k refl swept swept' f h live
