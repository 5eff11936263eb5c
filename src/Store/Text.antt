-- ===== src/Store/Text.antt =====
-- What `load_queue_state` of src/dispatch_queue_store.rs makes of the JSON in `queue.json`.
use animus_queue_default.Common.{◌≡◌, ap, sym, ◌∙◌, ◌≤◌, false, Option, some, none, List, ok, arith}
use animus_queue_default.Json.{Value, array}
use animus_queue_default.State.{
  DispatchQueueEntry, DispatchQueueState, default_state, queue_format_version,
}
use animus_queue_default.State.Written.{Codec, read_list, read_items, write_items}
use animus_queue_default.State.Written.Entries.{read_state, read_entry, entry_value, state_value}
use animus_queue_default.State.Written.RoundTrip.{
  IsFaithful, read_state-state_value, read_items-write_items, entry_back,
}
use animus_queue_default.External.{World, saves}
use animus_queue_default.Io.{Disk, QueueFile, unreadable, full, legacy}
use animus_queue_default.Store.{load_queue_state, save_queue_state, load_file, check_format, parsed}
use animus_queue_default.Store.Loading.{
  HasIds, migrate_missing_entry_ids-HasIds, load_queue_state-full, save_queue_state_sound,
}

module _ (c : Codec) where
  bare_list : Option (List DispatchQueueEntry) → QueueFile
  bare_list none = unreadable
  bare_list (some entries) = legacy entries

  state_or_list : Option DispatchQueueState → Option (List DispatchQueueEntry) → QueueFile
  unfolding bare_list
  state_or_list (some state) entries = full state
  state_or_list none entries = bare_list entries

  -- A state, or else the bare list of entries that older builds wrote.
  unfoldable pub file_of : Value → QueueFile
  unfolding state_or_list read_state read_entry read_items
  file_of value = state_or_list (read_state c value) (read_list (read_entry c) value)

  abbrev pub holding : Disk → Value → Disk
  holding d value = record d { queue_json = some (file_of value) }

module _ (c : Codec) (h : IsFaithful c) where
  file_of-state_value :
      (state : DispatchQueueState)
      → state.format_version ≤ queue_format_version
      → file_of c (state_value c state) ≡ full state
  unfolding file_of
  file_of-state_value state current =
      ap (λ o. state_or_list c o (read_list (read_entry c) (state_value c state)))
        (read_state-state_value c h state (omega arith))

  file_of-entries :
      (entries : List DispatchQueueEntry)
      → file_of c (array (write_items (entry_value c) entries)) ≡ legacy entries
  unfolding file_of read_state
  file_of-entries entries =
      ap (bare_list c)
        (read_items-write_items (entry_value c) (read_entry c) (entry_back c h) entries)

  -- If the other crates read the times, dispatches and reservations that they write as they were, and
  -- write none of them as `null`: where the file is read and every entry has an id, a load takes the
  -- JSON of a state whose version this build reads as that state, a skipped field by its default, and
  -- the bare list of entries of older builds as a state of version 0 with these entries. A save that
  -- goes through leaves the JSON of the state with the version of this build.
  pub load-written :
      (w later : World) (d : Disk) (state : DispatchQueueState)
      → w.save ≡ saves
      → later.read_fails ≡ false
      → HasIds state.entries
      → state.format_version ≤ queue_format_version
      → let own = holding c d (state_value c state) in
        let bare = holding c d (array (write_items (entry_value c) state.entries)) in
        let current = record state { format_version = queue_format_version } in
        (load_queue_state later own ≡ (own, ok (some state)))
        × (load_queue_state later bare
            ≡ (bare, ok (some (record default_state { entries = state.entries }))))
        × (save_queue_state w state d ≡ (holding c d (state_value c current), ok tt))
  unfolding load_queue_state load_file check_format parsed
  load-written w later d state s r ids current = (
    load_queue_state-full later _ state r (ap some (file_of-state_value state current)) current ids,
    ground (
      arith,
      r,
      file_of-entries state.entries,
      migrate_missing_entry_ids-HasIds later.migration_uuid 0 state.entries ids,
    ),
    save_queue_state_sound w d state s
        ∙ ap (λ file. (record d { queue_json = some file }, ok tt))
            (sym (
              file_of-state_value (record state { format_version = queue_format_version })
                (omega arith))),
  )
