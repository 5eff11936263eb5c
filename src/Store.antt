-- ===== src/Store.antt =====
-- src/dispatch_queue_store.rs: the lock, and loading and saving `queue.json`.
pub mod Loading
pub mod Text
pub mod Stored
use animus_queue_default.Common.{
  ℕ, ◌+◌, String, Bool, true, false, Option, none, some, List, [], ◌∷◌, ltb, is_blank, trim,
  if◌then◌else◌, Result, ok, err,
}
use animus_queue_default.State.{
  DispatchQueueEntry, DispatchQueueState, default_state, queue_format_version,
}
use animus_queue_default.External.{World, SaveResult, saves, keeps_old, replaces_unflushed}
use animus_queue_default.Io.{
  Disk, Io, IoError, QueueFile, blank, unreadable, full, legacy, lock_failed, read_failed,
  parse_failed, write_failed, newer_format, pure, raise, ◌>>=◌, ◌>>◌,
}

-- A call that returns has released the lock, so between calls nothing holds it.
unfoldable pub acquire_queue_lock : World → Io IoError (Unit {0})
acquire_queue_lock w d = (d, if w.lock_fails then err lock_failed else ok tt)

stamp : DispatchQueueState → DispatchQueueState
stamp state = record state { format_version = queue_format_version }

unfoldable pub write_state : SaveResult → DispatchQueueState → Io IoError (Unit {0})
unfolding stamp
write_state saves state d = (record d { queue_json = some (full (stamp state)) }, ok tt)
write_state keeps_old state d = (d, err write_failed)
write_state replaces_unflushed state d =
    (record d { queue_json = some (full (stamp state)) }, err write_failed)

unfoldable pub save_queue_state : World → DispatchQueueState → Io IoError (Unit {0})
unfolding write_state
save_queue_state w state = write_state w.save state

-- The entries with a fresh id, from the `k`-th on, for each id that is blank, and whether any was.
unfoldable pub migrate_missing_entry_ids :
    (ℕ → String) → ℕ → List DispatchQueueEntry → List DispatchQueueEntry × Bool
unfolding trim
migrate_missing_entry_ids uuid k [] = ([], false)
migrate_missing_entry_ids uuid k (entry ∷ entries) =
    let missing = is_blank (trim entry.entry_id) in
    let (rest, migrated) = migrate_missing_entry_ids uuid (if missing then k + 1 else k) entries in
    if missing then (record entry { entry_id = uuid k } ∷ rest, true) else (entry ∷ rest, migrated)

-- What the text of the file parses to, the bare list of older builds included.
parsed : QueueFile → Result IoError DispatchQueueState
parsed blank = ok default_state
parsed unreadable = err parse_failed
parsed (full state) = ok state
parsed (legacy entries) = ok (record default_state { entries = entries })

save_migrated :
    World
    → DispatchQueueState
    → List DispatchQueueEntry × Bool
    → Io IoError (Option DispatchQueueState)
unfolding write_state
save_migrated w state (entries, false) = pure (some state)
save_migrated w state (entries, true) = do
  let migrated = record state { entries = entries }
  write_state w.migration migrated
  pure (some migrated)

check_format : World → DispatchQueueState → Io IoError (Option DispatchQueueState)
unfolding save_migrated migrate_missing_entry_ids
check_format w state =
    if ltb queue_format_version state.format_version
    then raise (newer_format state.format_version)
    else save_migrated w state (migrate_missing_entry_ids w.migration_uuid 0 state.entries)

load_file : World → QueueFile → Io IoError (Option DispatchQueueState)
unfolding check_format parsed
-- A blank file is the default state at once.
load_file w blank = pure (some default_state)
load_file w file = do state ← (λ (d : Disk). (d, parsed file)); check_format w state

unfoldable pub load_queue_state : World → Io IoError (Option DispatchQueueState)
unfolding load_file
load_queue_state w d = elim d.queue_json [
  | none ↦ (d, ok none)
  | some file ↦ if w.read_fails then (d, err read_failed) else load_file w file d
]
