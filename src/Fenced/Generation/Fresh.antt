-- ===== src/Fenced/Generation/Fresh.antt =====
-- A generation that src/fenced_queue.rs hands out is above all that its subject has had.
use animus_queue_default.Common.{
  ℕ, ◌-◌, ◌^◌, ◌≤◌, ◌<◌, ◌≡◌, refl, sym, subst, String, true, false, List, [], ◌∷◌, ◌==◌, All,
  arith, max, unwrap_or, holds, Bool-cases, inl, inr, eq_iff, eq_refl,
}
use animus_queue_default.State.{DispatchQueueEntry, DispatchQueueState}
use animus_queue_default.Fenced.Generation.{
  Generations, recorded_generation, insert_generation, live_generation, next_subject_generation,
}

recorded_generation-insert_generation :
    (id : String) (g : ℕ) (m : Generations) → recorded_generation id (insert_generation id g m) ≡ g
unfolding recorded_generation insert_generation
recorded_generation-insert_generation id g [] = ground (arith, eq_refl id)
recorded_generation-insert_generation id g ((key, old) ∷ rest) =
    ground (arith, recorded_generation-insert_generation id g rest)

recorded_generation-insert_generation_other :
    (id other : String) (g : ℕ) (m : Generations)
    → (id == other) ≡ false
    → recorded_generation other (insert_generation id g m) ≡ recorded_generation other m
unfolding recorded_generation insert_generation
recorded_generation-insert_generation_other id other g [] h = ground arith
recorded_generation-insert_generation_other id other g ((key, old) ∷ rest) h =
    elim (Bool-cases (key == id)) [
      | inl hit ↦ ground (arith, subst (λ k. (k == other) ≡ false) (sym ((eq_iff key id).0 hit)) h)
      | inr miss ↦ ground (arith, recorded_generation-insert_generation_other id other g rest h)
    ]

-- The entry is not of the subject, or its generation is at most `g`.
abbrev pub IsAtMost : String → ℕ → DispatchQueueEntry → Type 0
IsAtMost id g entry = holds entry.subject_id id ≡ true → unwrap_or entry.subject_generation 0 ≤ g

IsAtMost-weaken :
    (id : String) (g h : ℕ) (entries : List DispatchQueueEntry)
    → g ≤ h
    → All (IsAtMost id g) entries
    → All (IsAtMost id h) entries
IsAtMost-weaken id g h [] le a = tt
IsAtMost-weaken id g h (entry ∷ entries) le (a, rest_le) =
    ((λ e. omega (arith, a e)), IsAtMost-weaken id g h entries le rest_le)

live_generation-IsAtMost :
    (id : String) (entries : List DispatchQueueEntry)
    → All (IsAtMost id (live_generation id entries)) entries
unfolding live_generation
live_generation-IsAtMost id [] = tt
live_generation-IsAtMost id (entry ∷ entries) = (
  (λ e. ground arith),
  IsAtMost-weaken id (live_generation id entries) _ entries (ground arith)
      (live_generation-IsAtMost id entries),
)

-- The entry is not of the subject, or its generation is below `g`.
abbrev pub IsBelow : String → ℕ → DispatchQueueEntry → Type 0
IsBelow id g entry = holds entry.subject_id id ≡ true → unwrap_or entry.subject_generation 0 < g

IsAtMost-IsBelow :
    (id : String) (g h : ℕ) (entries : List DispatchQueueEntry)
    → g < h
    → All (IsAtMost id g) entries
    → All (IsBelow id h) entries
IsAtMost-IsBelow id g h [] lt a = tt
IsAtMost-IsBelow id g h (entry ∷ entries) lt (a, rest_le) =
    ((λ e. omega (arith, a e)), IsAtMost-IsBelow id g h entries lt rest_le)

abbrev pub highest_generation : DispatchQueueState → String → ℕ
highest_generation state id =
    max (recorded_generation id state.subject_generations) (live_generation id state.entries)

-- The next generation of a subject, unless a counter is at the end of `u64`: it is above the
-- recorded one and above that of each entry of the subject, it is then the recorded one, and the
-- counters of the other subjects and the entries stay.
pub next_subject_generation-fresh :
    (state : DispatchQueueState) (id : String)
    → highest_generation state id < 2 ^ 64 - 1
    → let (state', g) = next_subject_generation state id in
      (recorded_generation id state.subject_generations < g)
      × All (IsBelow id g) state.entries
      × (recorded_generation id state'.subject_generations ≡ g)
      × ((other : String)
          → (id == other) ≡ false
          → recorded_generation other state'.subject_generations
            ≡ recorded_generation other state.subject_generations)
      × (state'.entries ≡ state.entries)
unfolding next_subject_generation
next_subject_generation-fresh state id h = (
  omega (arith, h),
  IsAtMost-IsBelow id (live_generation id state.entries) _ state.entries (omega (arith, h))
      (live_generation-IsAtMost id state.entries),
  recorded_generation-insert_generation id _ state.subject_generations,
  (λ other e. recorded_generation-insert_generation_other id other _ state.subject_generations e),
  refl,
)
