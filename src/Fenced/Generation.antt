-- ===== src/Fenced/Generation.antt =====
-- The subject generations of src/fenced_queue.rs.
pub mod Location
pub mod Fresh
pub mod Newest
use animus_queue_default.Common.{
  ℕ, suc, ◌+◌, String, Bool, false, ◌&&◌, ◌||◌, not, Option, none, some, List, [], ◌∷◌, ◌==◌, leb,
  u64, max, set, locate, or_else, unwrap_or, holds, if◌then◌else◌, ◌<>◌, Result, ok, err,
}
use animus_queue_default.Protocol.{SubjectDispatch, SubjectGeneration}
use animus_queue_default.State.{
  DispatchQueueEntry, DispatchQueueState, pending, held, unknown, status_eq,
}
use animus_queue_default.State.Entry.{is_ticketed}
use animus_queue_default.Identity.{dispatch_canonical_id}

abbrev pub Generations : Type 0
Generations = List (String × ℕ)

-- `subject_generations.get(id).copied().unwrap_or(0)`.
unfoldable pub recorded_generation : String → Generations → ℕ
recorded_generation id [] = 0
recorded_generation id ((key, generation) ∷ rest) =
    if key == id then generation else recorded_generation id rest

-- `subject_generations.insert(id, generation)`.
unfoldable pub insert_generation : String → ℕ → Generations → Generations
insert_generation id generation [] = (id, generation) ∷ []
insert_generation id generation ((key, old) ∷ rest) =
    if key == id
    then (key, generation) ∷ rest
    else (key, old) ∷ insert_generation id generation rest

-- The highest generation of the entries of a subject, 0 if there is none.
unfoldable pub live_generation : String → List DispatchQueueEntry → ℕ
live_generation id [] = 0
live_generation id (entry ∷ entries) =
    let rest = live_generation id entries in
    if holds entry.subject_id id then max (unwrap_or entry.subject_generation 0) rest else rest

unfoldable pub next_subject_generation : DispatchQueueState → String → DispatchQueueState × ℕ
unfolding recorded_generation live_generation insert_generation
next_subject_generation state id =
    let recorded = recorded_generation id state.subject_generations in
    let generation = u64 (max recorded (live_generation id state.entries) + 1) in
    (
      record state {
        subject_generations = insert_generation id generation state.subject_generations;
      },
      generation,
    )

unfoldable pub ticket_canonical :
    DispatchQueueState
    → ℕ
    → DispatchQueueEntry
    → Result String String
    → DispatchQueueState × Result String SubjectGeneration
unfolding next_subject_generation
ticket_canonical state index entry (err e) = (state, err e)
ticket_canonical state index entry (ok id) =
    let (counted, generation) = next_subject_generation state id in
    let ticketed = record entry { subject_id = some id; subject_generation = some generation } in
    (
      record counted { entries = set counted.entries index ticketed },
      ok (record { qualified_id = id; generation = generation }),
    )

unfoldable pub ticket_dispatch :
    DispatchQueueState
    → ℕ
    → DispatchQueueEntry
    → Option SubjectDispatch
    → DispatchQueueState × Result String SubjectGeneration
unfolding ticket_canonical dispatch_canonical_id
ticket_dispatch state index entry none =
    (state, err ("queue entry " <> entry.entry_id <> " has no dispatch to identify its subject"))
ticket_dispatch state index entry (some dispatch) =
    ticket_canonical state index entry (dispatch_canonical_id dispatch)

unfoldable pub ensure_parts :
    DispatchQueueState
    → ℕ
    → DispatchQueueEntry
    → Option ℕ
    → Option String
    → DispatchQueueState × Result String SubjectGeneration
unfolding ticket_dispatch
ensure_parts state index entry (some generation) (some id) =
    (state, ok (record { qualified_id = id; generation = generation }))
ensure_parts state index entry (some generation) none =
    ticket_dispatch state index entry entry.dispatch
ensure_parts state index entry none id = ticket_dispatch state index entry entry.dispatch

-- `entry` is `state.entries[index]`.
unfoldable pub ensure_ticket_identity :
    DispatchQueueState
    → ℕ
    → DispatchQueueEntry
    → DispatchQueueState × Result String SubjectGeneration
unfolding ensure_parts
ensure_ticket_identity state index entry =
    ensure_parts state index entry entry.subject_generation entry.subject_id

unfoldable pub is_ticketed_for : String → DispatchQueueEntry → Bool
unfolding is_ticketed
is_ticketed_for id entry =
    not (status_eq entry.status unknown) && is_ticketed entry && holds entry.subject_id id

abbrev generation_of : DispatchQueueEntry → ℕ
generation_of entry = unwrap_or entry.subject_generation 0

later_best :
    ℕ → DispatchQueueEntry → Option (ℕ × DispatchQueueEntry) → Option (ℕ × DispatchQueueEntry)
later_best index entry none = some (index, entry)
later_best index entry (some (i, best)) =
    if leb (generation_of best) (generation_of entry) then some (index, entry) else some (i, best)

-- `max_by_key`, which takes the last of equals.
unfoldable pub highest_ticketed :
    String
    → ℕ
    → Option (ℕ × DispatchQueueEntry)
    → List DispatchQueueEntry
    → Option (ℕ × DispatchQueueEntry)
unfolding later_best is_ticketed_for
highest_ticketed id index best [] = best
highest_ticketed id index best (entry ∷ entries) =
    highest_ticketed id (suc index)
      (if is_ticketed_for id entry then later_best index entry best else best) entries

canonical_is : String → Result String String → Bool
canonical_is id (ok canonical) = canonical == id
canonical_is id (err e) = false

dispatch_is : String → Option SubjectDispatch → Bool
unfolding canonical_is
dispatch_is id none = false
dispatch_is id (some dispatch) = canonical_is id (dispatch_canonical_id dispatch)

unfoldable pub is_waiting_for : String → DispatchQueueEntry → Bool
unfolding is_ticketed dispatch_is
is_waiting_for id entry =
    (status_eq entry.status pending || status_eq entry.status held)
    && not (is_ticketed entry)
    && dispatch_is id entry.dispatch

unfoldable pub live_entry_for_subject :
    DispatchQueueState → String → Option (ℕ × DispatchQueueEntry)
unfolding highest_ticketed is_waiting_for
live_entry_for_subject state id =
    or_else (highest_ticketed id 0 none state.entries) (locate (is_waiting_for id) state.entries)
