-- ===== src/Service/Reorder.antt =====
-- `queue/reorder` of src/queue_service.rs.
pub mod Stored
pub mod Permutes
use mathlib.Core.Option
use animus_queue_default.Common.{
  ℕ, suc, String, Bool, true, false, ◌&&◌, not, Option, none, some, List, [], ◌∷◌, ◌++◌, ◌==◌, eqb,
  map, if◌then◌else◌,
}
use animus_queue_default.State.{DispatchQueueEntry, DispatchQueueState}
use animus_queue_default.External.{World}
use animus_queue_default.Io.{Io, IoError, pure, ◌>>=◌, ◌>>◌}
use animus_queue_default.Store.{acquire_queue_lock, load_queue_state, save_queue_state}

-- An entry with its flag in `consumed`.
abbrev pub Marked : Type 0
Marked = Bool × DispatchQueueEntry

abbrev pub unmarked : List DispatchQueueEntry → List Marked
unmarked = map (λ entry. (false, entry))

keep_mark : Marked → DispatchQueueEntry × List Marked → DispatchQueueEntry × List Marked
keep_mark m (entry, rest) = (entry, m ∷ rest)

-- The inner loop: the first entry with the id that is not consumed, and the flags after it.
unfoldable pub take_named : String → List Marked → Option (DispatchQueueEntry × List Marked)
unfolding keep_mark
take_named entry_id [] = none
take_named entry_id ((consumed, entry) ∷ rest) =
    if not consumed && entry.entry_id == entry_id
    then some (entry, (true, entry) ∷ rest)
    else Option.map (keep_mark (consumed, entry)) (take_named entry_id rest)

-- The outer loop: the named entries in the order of the request, and the flags.
unfoldable pub pull_named : List String → List Marked → List DispatchQueueEntry × List Marked
unfolding take_named
pull_named [] marked = ([], marked)
pull_named (entry_id ∷ ids) marked = elim (take_named entry_id marked) [
  | none ↦ pull_named ids marked
  | some (entry, marked') ↦
      let (entries, marked'') = pull_named ids marked' in (entry ∷ entries, marked'')
]

unfoldable pub unconsumed : List Marked → List DispatchQueueEntry
unconsumed [] = []
unconsumed ((consumed, entry) ∷ rest) =
    if not consumed then entry ∷ unconsumed rest else unconsumed rest

unfoldable pub reordered : List String → List DispatchQueueEntry → List DispatchQueueEntry
unfolding pull_named unconsumed
reordered ids entries =
    let (named, marked) = pull_named ids (unmarked entries) in named ++ unconsumed marked

-- How many places hold another id than before.
unfoldable pub moved_count : List DispatchQueueEntry → List DispatchQueueEntry → ℕ
moved_count [] before = 0
moved_count (entry ∷ after) [] = 0
moved_count (entry ∷ after) (old ∷ before) =
    let rest = moved_count after before in if entry.entry_id == old.entry_id then rest else suc rest

module _ (w : World) where
  reorder_loaded : List String → Option DispatchQueueState → Io IoError ℕ
  unfolding reordered moved_count
  reorder_loaded ids none = pure 0
  reorder_loaded ids (some state) =
      let entries = reordered ids state.entries in
      let count = moved_count entries state.entries in
      if eqb count 0
      then pure 0
      else do save_queue_state w (record state { entries = entries }); pure count

  -- The response is `reordered_count`.
  unfoldable pub reorder : List String → Io IoError ℕ
  unfolding reorder_loaded
  reorder ids = do acquire_queue_lock w; loaded ← load_queue_state w; reorder_loaded ids loaded
