-- ===== src/Service/Enqueue.antt =====
-- The old-style `queue/enqueue` of src/queue_service.rs.
pub mod Stored
use animus_queue_default.Common.{
  ℕ, String, Bool, true, ◌&&◌, not, Option, none, some, [], ◌∷◌, ◌++◌, ◌==◌, ltb, eqb, length,
  filter, filter_opt, is_some, if◌then◌else◌, ◌<>◌, show_nat,
}
use animus_queue_default.Protocol.{SubjectDispatch}
use animus_queue_default.State.{DispatchQueueEntry, DispatchQueueState, unknown, status_eq}
use animus_queue_default.State.Entry.{from_dispatch, subject_id_ref}
use animus_queue_default.External.{External, World}
use animus_queue_default.Identity.{dispatch_legacy_key, missing_subject_identity}
use animus_queue_default.Io.{Io, pure, raise, lift, ◌>>=◌, ◌>>◌}
use animus_queue_default.Store.{acquire_queue_lock}
use animus_queue_default.Service.Base.{
  QueueCallError, invalid_params, load_or_default, commit, sweep_expired_entries,
}

pub record EnqueueOutcome : Type 0 where
  pub enqueued : Bool
  pub entry_id : String
  pub subject_id : String
  pub warning : Option String

-- An entry that counts for the warning: of this subject, and of a known status.
unfoldable pub is_queued_for : String → DispatchQueueEntry → Bool
is_queued_for subject_id entry =
    not (status_eq entry.status unknown) && subject_id_ref entry == subject_id

unfoldable pub dup_count : String → DispatchQueueState → ℕ
unfolding is_queued_for
dup_count subject_id state = length (filter (is_queued_for subject_id) state.entries)

duplicate_warning : String → ℕ → Option String
duplicate_warning subject_id count =
    if ltb 0 count
    then some (
        "subject "
        <> subject_id
        <> " already has "
        <> show_nat count
        <> " queued entr"
        <> (if eqb count 1 then "y" else "ies")
        <> "; duplicate enqueued")
    else none

module _ (x : External) (w : World) where
  enqueue_subject :
      Option String → SubjectDispatch → Option String → Option ℕ → Io QueueCallError EnqueueOutcome
  unfolding dup_count duplicate_warning sweep_expired_entries
  enqueue_subject none dispatch run_at expire_after_secs =
      raise (invalid_params missing_subject_identity)
  enqueue_subject (some subject_id) dispatch run_at expire_after_secs = do
    let readable = filter_opt (λ raw. is_some (x.parse_from_rfc3339 raw)) run_at
    lift QueueCallError.backend (acquire_queue_lock w)
    loaded ← lift QueueCallError.backend (load_or_default w)
    let swept = sweep_expired_entries x w.now loaded
    let state = swept.0
    let warning = duplicate_warning subject_id (dup_count subject_id state)
    let entry = from_dispatch x w dispatch readable expire_after_secs
    lift QueueCallError.backend
        (commit x w (record state { entries = state.entries ++ entry ∷ [] }) swept.1)
    pure (record {
      enqueued = true;
      entry_id = entry.entry_id;
      subject_id = subject_id;
      warning = warning;
    })

  unfoldable pub enqueue :
      SubjectDispatch → Option String → Option ℕ → Io QueueCallError EnqueueOutcome
  unfolding enqueue_subject
  enqueue dispatch run_at expire_after_secs =
      enqueue_subject (dispatch_legacy_key dispatch) dispatch run_at expire_after_secs
