-- ===== src/Fenced/Generation/Newest.antt =====
-- The newest ticket of a subject, which the searches of src/fenced_queue.rs give.
use animus_queue_default.Common.{
  ℕ, zero, suc, ◌+◌, ◌≤◌, ◌<◌, ◌≡◌, ◌≢◌, refl, ap, ◌∙◌, String, Bool, true, false, Option, none,
  some, List, [], ◌∷◌, get_elem?, holds, eq_iff, eq_refl, Bool-cases, inl, inr, arith,
  if◌then◌else◌, leb, is_some, locate, unwrap_or, or_else, not, ◌&&◌,
}
use mathlib.Core.Option.{some-injective}
use animus_queue_default.State.{
  DispatchQueueEntry, DispatchQueueState, DispatchQueueEntryStatus, pending, assigned, held,
  unknown, status_eq,
}
use animus_queue_default.State.Entry.{is_ticketed}
use animus_queue_default.Fenced.Generation.{
  is_ticketed_for, later_best, highest_ticketed, live_entry_for_subject, generation_of,
  is_waiting_for,
}

-- The entry at `i` has ticket `g` of the subject, its status is known, and no other entry of the
-- subject with a known status has a newer ticket, nor one as new further on.
pub record IsNewest (id : String) (entries : List DispatchQueueEntry) (i : ℕ)
    (entry : DispatchQueueEntry) (g : ℕ) : Type 0 where
  pub at : get_elem? entries i ≡ some entry
  pub known : entry.status ≢ unknown
  pub of_subject : entry.subject_id ≡ some id
  pub ticket : entry.subject_generation ≡ some g
  pub newest :
      (j : ℕ) (other : DispatchQueueEntry) (k : ℕ)
      → get_elem? entries j ≡ some other
      → other.status ≢ unknown
      → other.subject_id ≡ some id
      → other.subject_generation ≡ some k
      → (k ≤ g) × (i < j → k < g)

abbrev IsUpTo : ℕ → Option (ℕ × DispatchQueueEntry) → Type 0
IsUpTo g none = Unit {0}
IsUpTo g (some (i, best)) = generation_of best ≤ g

highest_ticketed-stays :
    (id : String) (k i g : ℕ) (best : DispatchQueueEntry) (entries : List DispatchQueueEntry)
    → generation_of best ≡ g
    → ((j : ℕ) (other : DispatchQueueEntry)
        → get_elem? entries j ≡ some other
        → is_ticketed_for id other ≡ true
        → generation_of other < g)
    → highest_ticketed id k (some (i, best)) entries ≡ some (i, best)
unfolding highest_ticketed later_best
highest_ticketed-stays id k i g best [] e h = refl
highest_ticketed-stays id k i g best (y ∷ ys) e h =
    let rest = highest_ticketed-stays id (suc k) i g best ys e (λ j. h (suc j)) in
    elim (Bool-cases (is_ticketed_for id y)) [
      | inl mine ↦ ground (arith, mine, rest, e, h 0 y refl mine)
      | inr other ↦ rw other rest
    ]

later_best-IsUpTo :
    (b : Bool) (k g : ℕ) (y : DispatchQueueEntry) (best : Option (ℕ × DispatchQueueEntry))
    → IsUpTo g best
    → (b ≡ true → generation_of y ≤ g)
    → IsUpTo g (if b then later_best k y best else best)
unfolding later_best
later_best-IsUpTo true k g y none h f = f refl
later_best-IsUpTo true k g y (some (i, best)) h f =
    elim (Bool-cases (leb (generation_of best) (generation_of y))) [
      | inl e ↦ rw e (f refl)
      | inr e ↦ rw e h
    ]
later_best-IsUpTo false k g y best h f = h

later_best-newest :
    (k g : ℕ) (y : DispatchQueueEntry) (best : Option (ℕ × DispatchQueueEntry))
    → IsUpTo g best
    → generation_of y ≡ g
    → later_best k y best ≡ some (k, y)
unfolding later_best
later_best-newest k g y none h e = refl
later_best-newest k g y (some (i, best)) h e = ground arith

highest_ticketed-found :
    (id : String) (k g : ℕ) (best : Option (ℕ × DispatchQueueEntry))
    → IsUpTo g best
    → (entries : List DispatchQueueEntry) (i : ℕ) (entry : DispatchQueueEntry)
    → get_elem? entries i ≡ some entry
    → is_ticketed_for id entry ≡ true
    → generation_of entry ≡ g
    → ((j : ℕ) (other : DispatchQueueEntry)
        → get_elem? entries j ≡ some other
        → is_ticketed_for id other ≡ true
        → (generation_of other ≤ g) × (i < j → generation_of other < g))
    → highest_ticketed id k best entries ≡ some (k + i, entry)
unfolding highest_ticketed
highest_ticketed-found id k g best up [] i entry e t s h = absurd (ground arith)
highest_ticketed-found id k g best up (y ∷ ys) zero entry e t s h =
    let same = some-injective _ _ e in
    let mine = ap (is_ticketed_for id) same ∙ t in
    let first = later_best-newest k g y best up (ap generation_of same ∙ s) in
    rw (mine, first)
      (highest_ticketed-stays id (suc k) k g y ys (ap generation_of same ∙ s)
          (λ j other f o. (h (suc j) other f o).1 (omega arith))
        ∙ ap (λ n. some (k, n)) same
        ∙ ap (λ n. some (n, entry)) (omega arith))
highest_ticketed-found id k g best up (y ∷ ys) (suc i) entry e t s h =
    highest_ticketed-found id (suc k) g _
      (later_best-IsUpTo (is_ticketed_for id y) k g y best up (λ mine. (h 0 y refl mine).0)) ys i
      entry e t s
      (λ j other f o. let (up_to, below) = h (suc j) other f o in (up_to, λ l. below (omega arith)))
    ∙ ap (λ n. some (n, entry)) (omega arith)

status_known :
    (status : DispatchQueueEntryStatus) → status ≢ unknown → status_eq status unknown ≡ false
status_known pending h = refl
status_known assigned h = refl
status_known held h = refl
status_known unknown h = absurd (h refl)

known_status :
    (status : DispatchQueueEntryStatus) → status_eq status unknown ≡ false → status ≢ unknown
known_status pending e f = ground arith
known_status assigned e f = ground arith
known_status held e f = ground arith
known_status unknown e f = ground arith

ticket_parts :
    (id : String) (b : Bool) (generation : Option ℕ) (subject : Option String)
    → (not b && is_some generation && holds subject id) ≡ true
    → (k : ℕ) × (b ≡ false) × (generation ≡ some k) × (subject ≡ some id)
ticket_parts id false (some k) (some s) e = (k, refl, refl, ap some ((eq_iff s id).0 e))
ticket_parts id false (some k) none e = absurd (ground arith)
ticket_parts id false none subject e = absurd (ground arith)
ticket_parts id true generation subject e = absurd (ground arith)

-- The search for a live entry gives the newest ticket of the subject.
pub live_entry_for_subject-IsNewest :
    (s : DispatchQueueState) (id : String) (i : ℕ) (entry : DispatchQueueEntry) (g : ℕ)
    → IsNewest id s.entries i entry g
    → live_entry_for_subject s id ≡ some (i, entry)
unfolding live_entry_for_subject is_ticketed_for is_ticketed
live_entry_for_subject-IsNewest s id i entry g n =
    let found =
      highest_ticketed-found id 0 g none tt s.entries i entry n.at
        (ground (arith, status_known entry.status n.known, n.ticket, n.of_subject, eq_refl id))
        (ap (λ o. unwrap_or o 0) n.ticket)
        (λ j other e t.
          let (k, known, ticket, mine) =
            ticket_parts id (status_eq other.status unknown) other.subject_generation
              other.subject_id t in
          let generation = ap (λ o. unwrap_or o 0) ticket in
          let (up_to, below) = n.newest j other k e (known_status other.status known) mine ticket in
          (ground (arith, generation, up_to), λ l. ground (arith, generation, below l))) in
    ap (λ o. or_else o (locate (is_waiting_for id) s.entries))
      (found ∙ ap (λ n. some (n, entry)) (omega arith))
