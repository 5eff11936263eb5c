-- ===== src/Store/Stored.antt =====
-- Invariants of the state that `queue.json` holds, through loads and saves.
use animus_queue_default.Common.{
  ℕ, ◌≡◌, refl, String, Bool, true, false, Option, none, some, List, arith, ok, err, Bool-cases,
  inl, inr, ltb, Result, map_err, unwrap_or, [], ◌++◌,
}
use animus_queue_default.State.{
  DispatchQueueEntry, DispatchQueueState, default_state, queue_format_version,
}
use animus_queue_default.External.{World, SaveResult, saves, keeps_old, replaces_unflushed}
use animus_queue_default.Io.{
  Disk, IoError, QueueFile, blank, unreadable, full, legacy, Io, lift, ◌>>=◌,
}
use animus_queue_default.Io.Keeps.{Keeps, Keeps-bind_with, Keeps-lift}
use animus_queue_default.Store.{
  acquire_queue_lock, write_state, save_queue_state, load_queue_state, load_file, check_format,
  save_migrated, migrate_missing_entry_ids,
}

-- An invariant of the state that does not depend on the format version or on which ids entries
-- have, and one of the history that lasts while bytes are appended.
pub record IsStable (I : DispatchQueueState → Type 0) (H : Option (List ℕ) → Type 0) : Type 0 where
  pub at_default : I default_state
  pub stamped :
      (s : DispatchQueueState) → I s → I (record s { format_version = queue_format_version })
  pub migrated :
      (uuid : ℕ → String) (k : ℕ) (s : DispatchQueueState)
      → I s
      → I (record s { entries = (migrate_missing_entry_ids uuid k s.entries).0 })
  pub appended : (h : Option (List ℕ)) (bytes : List ℕ) → H h → H (some (unwrap_or h [] ++ bytes))

abbrev pub AnyHistory : Option (List ℕ) → Type 0
AnyHistory h = Unit {0}

pub lifted_ok :
    {E F A : Type 0} (f : E → F) (r : Result E A) {a : A} → map_err f r ≡ ok a → r ≡ ok a
lifted_ok f (ok a) e = ground arith
lifted_ok f (err b) e = cc

module _ (I : DispatchQueueState → Type 0) where
  abbrev pub FileHolds : QueueFile → Type 0
  FileHolds blank = Unit {0}
  FileHolds unreadable = Unit {0}
  FileHolds (full state) = I state
  FileHolds (legacy entries) = I (record default_state { entries = entries })

  abbrev pub OptionHolds : Option QueueFile → Type 0
  OptionHolds none = Unit {0}
  OptionHolds (some file) = FileHolds file

  abbrev pub StateHolds : Option DispatchQueueState → Type 0
  StateHolds none = Unit {0}
  StateHolds (some state) = I state

module _ (I : DispatchQueueState → Type 0) (H : Option (List ℕ) → Type 0) where
  -- The state that the disk holds, if it holds one, satisfies `I`, and the history `H`.
  abbrev pub Stored : Disk → Type 0
  Stored d = OptionHolds I d.queue_json × H d.history

  pub Keeps-acquire : (w : World) → Keeps Stored (acquire_queue_lock w)
  unfolding acquire_queue_lock
  Keeps-acquire w = record { at = λ d h. h }

  module _ (stable : IsStable I H) where
    Keeps-write : (r : SaveResult) (s : DispatchQueueState) → I s → Keeps Stored (write_state r s)
    unfolding write_state
    Keeps-write saves s i = record { at = λ d h. (stable.stamped s i, h.1) }
    Keeps-write keeps_old s i = record { at = λ d h. h }
    Keeps-write replaces_unflushed s i = record { at = λ d h. (stable.stamped s i, h.1) }

    pub Keeps-save :
        (w : World) (s : DispatchQueueState) → I s → Keeps Stored (save_queue_state w s)
    unfolding save_queue_state
    Keeps-save w s i = Keeps-write w.save s i

    -- What one load gives: a disk that keeps the invariant, and a state that satisfies it.
    abbrev pub LoadHolds : Disk × Result IoError (Option DispatchQueueState) → Type 0
    LoadHolds (d, ok loaded) = Stored d × StateHolds I loaded
    LoadHolds (d, err e) = Stored d

    load_saved :
        (w : World) (r : SaveResult) (s : DispatchQueueState) (d : Disk)
        → w.migration ≡ r
        → I s
        → Stored d
        → LoadHolds (save_migrated w s (s.entries, true) d)
    unfolding save_migrated write_state
    load_saved w saves s d e i h = rw (e, write_state) ((stable.stamped s i, h.1), i)
    load_saved w keeps_old s d e i h = rw (e, write_state) h
    load_saved w replaces_unflushed s d e i h = rw (e, write_state) (stable.stamped s i, h.1)

    load_migrated :
        (w : World) (s : DispatchQueueState) (d : Disk)
        → (p : List DispatchQueueEntry × Bool) → I s
        → I (record s { entries = p.0 })
        → Stored d
        → LoadHolds (save_migrated w s p d)
    unfolding save_migrated
    load_migrated w s d (entries, false) i j h = (h, i)
    load_migrated w s d (entries, true) i j h =
        load_saved w w.migration (record s { entries = entries }) d refl j h

    load_checked :
        (w : World) (s : DispatchQueueState) (d : Disk)
        → I s
        → Stored d
        → LoadHolds (check_format w s d)
    unfolding check_format
    load_checked w s d i h = elim (Bool-cases (ltb queue_format_version s.format_version)) [
      | inl newer ↦ rw (newer, check_format) h
      | inr fits ↦
          rw (fits, check_format)
            (load_migrated w s d (migrate_missing_entry_ids w.migration_uuid 0 s.entries) i
              (stable.migrated w.migration_uuid 0 s i) h)
    ]

    load_parsed :
        (w : World) (file : QueueFile) (d : Disk)
        → FileHolds I file
        → Stored d
        → LoadHolds (load_file w file d)
    unfolding load_file
    load_parsed w blank d i h = (h, stable.at_default)
    load_parsed w unreadable d i h = h
    load_parsed w (full s) d i h = load_checked w s d i h
    load_parsed w (legacy entries) d i h =
        load_checked w (record default_state { entries = entries }) d i h

    pub load-LoadHolds :
        (w : World) (d : Disk) (json : Option QueueFile)
        → d.queue_json ≡ json
        → Stored d
        → OptionHolds I json
        → LoadHolds (load_queue_state w d)
    unfolding load_queue_state
    load-LoadHolds w d none e h i = rw (e, load_queue_state) (h, tt)
    load-LoadHolds w d (some file) e h i = elim (Bool-cases w.read_fails) [
      | inl fails ↦ rw (e, fails, load_queue_state) h
      | inr reads ↦ rw (e, reads, load_queue_state) (load_parsed w file d i h)
    ]

    loaded_keeps :
        (r : Disk × Result IoError (Option DispatchQueueState)) → LoadHolds r → Stored r.0
    loaded_keeps (d, ok loaded) h = h.0
    loaded_keeps (d, err e) h = h

    loaded_holds :
        (r : Disk × Result IoError (Option DispatchQueueState)) (loaded : Option DispatchQueueState)
        → LoadHolds r
        → r.1 ≡ ok loaded
        → StateHolds I loaded
    loaded_holds (d, ok o) loaded h e = ground arith
    loaded_holds (d, err f) loaded h e = cc

    pub Keeps-load : (w : World) → Keeps Stored (load_queue_state w)
    Keeps-load w = record {
      at = λ d h. loaded_keeps (load_queue_state w d) (load-LoadHolds w d d.queue_json refl h h.0);
    }

    -- The rest of a call may use that the state it loads satisfies the invariant.
    pub Keeps-load_bind :
        {E B : Type 0} (f : IoError → E) (w : World)
        → (rest : Option DispatchQueueState → Io E B)
        → ((loaded : Option DispatchQueueState) → StateHolds I loaded → Keeps Stored (rest loaded))
        → Keeps Stored (lift f (load_queue_state w) >>= rest)
    Keeps-load_bind f w rest k =
        Keeps-bind_with (lift f (load_queue_state w)) rest
          (Keeps-lift f (load_queue_state w) (Keeps-load w)) (StateHolds I)
          (λ d h loaded e.
            loaded_holds (load_queue_state w d) loaded (load-LoadHolds w d d.queue_json refl h h.0)
              (lifted_ok f (load_queue_state w d).1 e))
          k

    pub Keeps-load_plain :
        {B : Type 0} (w : World) (rest : Option DispatchQueueState → Io IoError B)
        → ((loaded : Option DispatchQueueState) → StateHolds I loaded → Keeps Stored (rest loaded))
        → Keeps Stored (load_queue_state w >>= rest)
    Keeps-load_plain w rest k =
        Keeps-bind_with (load_queue_state w) rest (Keeps-load w) (StateHolds I)
          (λ d h loaded e.
            loaded_holds (load_queue_state w d) loaded (load-LoadHolds w d d.queue_json refl h h.0)
              e)
          k
