-- ===== src/Fenced/Enqueue/Joining.antt =====
-- An add of src/fenced_queue.rs for a subject that has a live ticketed entry.
use animus_queue_default.Common.{
  ℕ, ◌≡◌, String, false, none, some, [], arith, find, set, ◌++◌, ◌∷◌, ok, ◌<>◌,
}
use animus_queue_default.Protocol.{QueueEnqueueV2Response}
use animus_queue_default.State.{DispatchQueueEntry, DispatchQueueState}
use animus_queue_default.External.{External, World}
use animus_queue_default.Io.{Disk}
use animus_queue_default.History.{append_history, find_history_by_idempotency_key}
use animus_queue_default.Store.{acquire_queue_lock}
use animus_queue_default.Store.Loading.{
  ReadsAs, disk_with, with_entry, save_queue_state_sound, load_queue_state-full,
}
use animus_queue_default.Service.Base.{commit, load_or_default, sweep_expired_entries}
use animus_queue_default.Fenced.Generation.{ensure_ticket_identity, ensure_parts}
use animus_queue_default.Fenced.Generation.Newest.{IsNewest, live_entry_for_subject-IsNewest}
use animus_queue_default.Fenced.Request.{Enqueued}
use animus_queue_default.Fenced.Enqueue.{
  receipt, has_key, receipt_of, idempotent_receipt, replayed, find_holder, answer, place,
  reuse_ticketed, bind_key, enqueue_validated, history_entry,
}

-- The answer to an add that found its subject at work.
abbrev pub joined : Enqueued → DispatchQueueEntry → ℕ → QueueEnqueueV2Response
joined request entry g =
    receipt false entry.entry_id (record { qualified_id = request.qualified_id; generation = g })
      (some (
        "subject " <> request.qualified_id
        <> " already has an active generation; enqueue rejected"))

-- The entry, bound to one key more.
abbrev pub bound_also : String → String → DispatchQueueEntry → DispatchQueueEntry
bound_also key hash entry = record entry {
  extra_idempotency_keys =
      entry.extra_idempotency_keys ++ record { key = key; request_hash = hash } ∷ [];
}

module _ (x : External) where
  -- On a disk that works, with nothing expired, an add with a key that no entry and no history line
  -- holds, for a subject with a ticketed entry of a known status, adds no entry and hands out no
  -- generation. It is answered with the entry that has the newest ticket of the subject, the last of
  -- them if several have it, and with that ticket, as not enqueued. All that changes on the disk is
  -- that this entry is bound to the key and the content of the add as well, behind the keys that it
  -- had, and that the file has the version of this build.
  pub enqueue_validated-joins :
      (w : World) (d : Disk) (state : DispatchQueueState)
      → ReadsAs w d state
      → sweep_expired_entries x w.now state ≡ (state, [])
      → (request : Enqueued) (key : String) → request.idempotency_key ≡ some key
      → find (has_key key) state.entries ≡ none
      → find_history_by_idempotency_key x w key d ≡ (d, ok none)
      → (i : ℕ) (entry : DispatchQueueEntry) (g : ℕ)
      → IsNewest request.qualified_id state.entries i entry g
      → enqueue_validated x w request d ≡ (
        disk_with d (with_entry state i (bound_also key request.request_hash entry)),
        ok (joined request entry g),
      )
  unfolding enqueue_validated acquire_queue_lock load_or_default answer replayed idempotent_receipt
      find_holder receipt_of history_entry place reuse_ticketed commit append_history
      ensure_ticket_identity ensure_parts bind_key
  enqueue_validated-joins w d state r swept request key k f h i entry g newest = ground (
    arith,
    r.sound.locks,
    load_queue_state-full w d state r.sound.reads r.held r.current r.has_ids,
    swept,
    k,
    f,
    h,
    live_entry_for_subject-IsNewest state request.qualified_id i entry g newest,
    newest.of_subject,
    newest.ticket,
    newest.at,
    save_queue_state_sound w d
        (record state { entries = set state.entries i (bound_also key request.request_hash entry) })
        r.sound.saving,
  )
