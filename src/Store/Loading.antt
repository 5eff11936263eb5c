-- ===== src/Store/Loading.antt =====
-- What a load gives back of what was saved.
use animus_queue_default.Common.{
  String, sym, subst, All-set, All-get_elem?, get_elem?, set, ℕ, ◌≤◌, ◌≡◌, refl, String, false,
  some, List, [], ◌∷◌, All, arith, is_blank, trim, ok,
}
use animus_queue_default.State.{DispatchQueueEntry, DispatchQueueState, queue_format_version}
use animus_queue_default.External.{World, appends, saves}
use animus_queue_default.Io.{Disk, full}
use animus_queue_default.Store.{
  migrate_missing_entry_ids, load_queue_state, save_queue_state, write_state, stamp,
}

-- The lock is got, and every read and write goes through.
pub record IsSound (w : World) : Type 0 where
  pub locks : w.lock_fails ≡ false
  pub reads : w.read_fails ≡ false
  pub migrates : w.migration ≡ saves
  pub appending : w.append ≡ appends
  pub saving : w.save ≡ saves
  pub reads_history : w.history_read_fails ≡ false

-- Every entry has an id.
abbrev pub HasIds : List DispatchQueueEntry → Type 0
HasIds = All (λ (entry : DispatchQueueEntry). is_blank (trim entry.entry_id) ≡ false)

abbrev pub IsCurrent : DispatchQueueState → Type 0
IsCurrent state = state.format_version ≤ queue_format_version

pub migrate_missing_entry_ids-HasIds :
    (uuid : ℕ → String) (k : ℕ) (entries : List DispatchQueueEntry)
    → HasIds entries
    → migrate_missing_entry_ids uuid k entries ≡ (entries, false)
unfolding migrate_missing_entry_ids
migrate_missing_entry_ids-HasIds uuid k [] h = refl
migrate_missing_entry_ids-HasIds uuid k (entry ∷ entries) h =
    ground (arith, migrate_missing_entry_ids-HasIds uuid k entries h.1)

-- A state with ids is read back as it was saved.
pub load_queue_state-full :
    (w : World) (d : Disk) (state : DispatchQueueState)
    → w.read_fails ≡ false
    → d.queue_json ≡ some (full state)
    → IsCurrent state
    → HasIds state.entries
    → load_queue_state w d ≡ (d, ok (some state))
unfolding load_queue_state
load_queue_state-full w d state r e v h =
    ground (arith, migrate_missing_entry_ids-HasIds w.migration_uuid 0 state.entries h)

-- A call in which nothing fails, on a disk that holds `state`, of a version that this build reads
-- and with an id for each entry: a disk that works.
pub record ReadsAs (w : World) (d : Disk) (state : DispatchQueueState) : Type 0 where
  pub sound : IsSound w
  pub held : d.queue_json ≡ some (full state)
  pub current : IsCurrent state
  pub has_ids : HasIds state.entries

pub save_queue_state_sound :
    (w : World) (d : Disk) (state : DispatchQueueState)
    → w.save ≡ saves
    → save_queue_state w state d ≡ (
      record d {
        queue_json = some (full (record state { format_version = queue_format_version }));
      },
      ok tt,
    )
unfolding save_queue_state write_state stamp
save_queue_state_sound w d state s = ground (arith, s)

-- What a call that writes one entry leaves on the disk: the state with `entry` at its place.
abbrev pub with_entry : DispatchQueueState → ℕ → DispatchQueueEntry → DispatchQueueState
with_entry state i entry = record state {
  format_version = queue_format_version;
  entries = set state.entries i entry;
}

abbrev pub disk_with : Disk → DispatchQueueState → Disk
disk_with d state = record d { queue_json = some (full state) }

pub with_entry-ReadsAs :
    (w later : World) (d : Disk) (state : DispatchQueueState)
    → ReadsAs w d state
    → IsSound later
    → (i : ℕ) (entry new : DispatchQueueEntry) → get_elem? state.entries i ≡ some entry
    → new.entry_id ≡ entry.entry_id
    → ReadsAs later (disk_with d (with_entry state i new)) (with_entry state i new)
with_entry-ReadsAs w later d state r s i entry new e same = record {
  sound = s;
  held = refl;
  current = omega arith;
  has_ids =
      All-set (λ (entry : DispatchQueueEntry). is_blank (trim entry.entry_id) ≡ false) state.entries
        i new r.has_ids
        (subst (λ id. is_blank (trim id) ≡ false) (sym same)
          (All-get_elem? (λ (entry : DispatchQueueEntry). is_blank (trim entry.entry_id) ≡ false)
            state.entries i entry r.has_ids e));
}
