-- ===== src/Service/Mutations/Holding.antt =====
-- `queue/hold` and `queue/release` of src/queue_service.rs on a disk that works.
use animus_queue_default.Common.{
  zero, suc, ap, ◌∙◌, ℕ, ◌≡◌, refl, String, true, false, none, some, List, [], ◌∷◌, arith, locate,
  locate_lem, locate-set, get_elem?, set, ok,
}
use animus_queue_default.State.{
  DispatchQueueEntry, DispatchQueueState, pending, held, queue_format_version,
}
use animus_queue_default.External.{External, World}
use animus_queue_default.Io.{Disk}
use animus_queue_default.Store.{acquire_queue_lock}
use animus_queue_default.Store.Loading.{
  with_entry, disk_with, with_entry-ReadsAs, IsSound, ReadsAs, save_queue_state_sound,
  load_queue_state-full,
}
use animus_queue_default.Service.Base.{response}
use animus_queue_default.Service.Mutations.{
  Mutation, has_id, mutate_entry, mutate_loaded, mutate_found, save_mutated, hold_entry, hold,
  hold_status, release_entry, release, release_status,
}

-- A write of what stands there, and a write over a write.
set_same : {A : Type 0} (xs : List A) (i : ℕ) (v : A) → get_elem? xs i ≡ some v → set xs i v ≡ xs
set_same [] i v e = refl
set_same (x ∷ xs) zero v e = ground arith
set_same (x ∷ xs) (suc i) v e = ground (arith, set_same xs i v e)

set-set : {A : Type 0} (xs : List A) (i : ℕ) (v u : A) → set (set xs i v) i u ≡ set xs i u
set-set [] i v u = refl
set-set (x ∷ xs) zero v u = refl
set-set (x ∷ xs) (suc i) v u = ap (◌∷◌ x) (set-set xs i v u)

-- Waiting, and not held before.
pub record IsWaiting (entry : DispatchQueueEntry) : Type 0 where
  pub waits : entry.status ≡ pending
  pub unheld : entry.held_at ≡ none

module _ (x : External) where
  abbrev pub held_entry : World → DispatchQueueEntry → DispatchQueueEntry
  held_entry w entry = record entry { status = held; held_at = some (x.to_rfc3339 w.now) }

  released_held :
      (w : World) (entry : DispatchQueueEntry)
      → IsWaiting entry
      → record (held_entry w entry) { status = pending; held_at = none } ≡ entry
  released_held w entry v = ground (arith, v.waits, v.unheld)

  mutate-changes :
      (w : World) (d : Disk) (state : DispatchQueueState)
      → ReadsAs w d state
      → (id : String) (i : ℕ) (entry new : DispatchQueueEntry) (mutate : Mutation)
      → locate (has_id id) state.entries ≡ some (i, entry)
      → mutate entry ≡ ok (new, true)
      → mutate_entry w id mutate d
        ≡ (disk_with d (with_entry state i new), ok (response true false))
  unfolding mutate_entry mutate_loaded mutate_found save_mutated acquire_queue_lock
  mutate-changes w d state r id i entry new mutate e m = ground (
    arith,
    r.sound.locks,
    load_queue_state-full w d state r.sound.reads r.held r.current r.has_ids,
    e,
    m,
    save_queue_state_sound w d (record state { entries = set state.entries i new }) r.sound.saving,
  )

  -- On a disk that works, an entry that waits and was not held before is held and then released:
  -- both calls answer that they changed it, and the disk holds the state of before, with the
  -- version of this build.
  pub hold-release :
      (w later : World) (d : Disk) (state : DispatchQueueState)
      → ReadsAs w d state
      → IsSound later
      → (id : String) (i : ℕ) (entry : DispatchQueueEntry)
      → locate (has_id id) state.entries ≡ some (i, entry)
      → IsWaiting entry
      → let d' = (hold x w id d).0 in
        ((hold x w id d).1 ≡ ok (response true false))
        × (release later id d' ≡ (
          disk_with d (record state { format_version = queue_format_version }),
          ok (response true false),
        ))
  unfolding hold release hold_entry hold_status release_entry release_status
  hold-release w later d state r s id i entry e v =
      let up = held_entry w entry in
      let here = locate_lem (has_id id) state.entries i entry e in
      let holding =
        mutate-changes w d state r id i entry up (hold_entry x w) e (ground (arith, v.waits)) in
      let releasing =
        mutate-changes later (disk_with d (with_entry state i up)) (with_entry state i up)
          (with_entry-ReadsAs w later d state r s i entry up here.0 refl) id i up entry
          release_entry (locate-set (has_id id) state.entries i entry up e here.1)
          (ap (λ e. ok (e, true)) (released_held w entry v)) in
      (
        ap (λ p. p.1) holding,
        ap (λ p. release later id p.0) holding
            ∙ releasing
            ∙ ap
                (λ entries. (
                  disk_with d
                      (record state { format_version = queue_format_version; entries = entries }),
                  ok (response true false),
                ))
                (set-set state.entries i up entry ∙ set_same state.entries i entry here.0),
      )
