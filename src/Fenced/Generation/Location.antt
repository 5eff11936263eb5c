-- ===== src/Fenced/Generation/Location.antt =====
-- Where the entries stand that the searches of src/fenced_queue.rs give.
use animus_queue_default.Common.{
  ℕ, suc, ◌+◌, ◌≡◌, String, Bool, true, false, Option, none, some, List, [], ◌∷◌, ◌⊎◌, inl, inr,
  subst, get_elem?, get_elem?-set_self, locate_lem, Result, ok, err, or_else, arith, if◌then◌else◌,
}
use animus_queue_default.Protocol.{SubjectDispatch}
use animus_queue_default.State.{DispatchQueueEntry, DispatchQueueState}
use animus_queue_default.Fenced.Generation.{
  is_ticketed_for, is_waiting_for, later_best, highest_ticketed, live_entry_for_subject,
  ticket_canonical, ticket_dispatch, ensure_parts, ensure_ticket_identity,
}

-- `found` is the best so far, or stands in the rest of the list.
abbrev IsFound :
    Option (ℕ × DispatchQueueEntry) → ℕ → List DispatchQueueEntry → ℕ × DispatchQueueEntry → Type 0
IsFound best k entries found =
    (best ≡ some found) ⊎ ((j : ℕ) × (found.0 ≡ k + j) × (get_elem? entries j ≡ some found.1))

IsFound-next :
    (next best : Option (ℕ × DispatchQueueEntry)) (k : ℕ) (entry : DispatchQueueEntry)
    → (entries : List DispatchQueueEntry) (found : ℕ × DispatchQueueEntry)
    → IsFound next (suc k) entries found
    → (next ≡ some found → IsFound best k (entry ∷ entries) found)
    → IsFound best k (entry ∷ entries) found
IsFound-next next best k entry entries found (inl e) keep = keep e
IsFound-next next best k entry entries found (inr (j, at, e)) keep = inr (suc j, omega arith, e)

pick-IsFound :
    (b : Bool) (best : Option (ℕ × DispatchQueueEntry)) (k : ℕ) (entry : DispatchQueueEntry)
    → (entries : List DispatchQueueEntry) (found : ℕ × DispatchQueueEntry)
    → (if b then some (k, entry) else best) ≡ some found
    → IsFound best k (entry ∷ entries) found
pick-IsFound true best k entry entries found e = inr (0, ground arith, ground arith)
pick-IsFound false best k entry entries found e = inl e

later_best-IsFound :
    (best : Option (ℕ × DispatchQueueEntry)) (k : ℕ) (entry : DispatchQueueEntry)
    → (entries : List DispatchQueueEntry) (found : ℕ × DispatchQueueEntry)
    → later_best k entry best ≡ some found
    → IsFound best k (entry ∷ entries) found
unfolding later_best
later_best-IsFound none k entry entries found e = inr (0, ground arith, ground arith)
later_best-IsFound (some (i, old)) k entry entries found e =
    pick-IsFound _ _ k entry entries found e

round-IsFound :
    (b : Bool) (best : Option (ℕ × DispatchQueueEntry)) (k : ℕ) (entry : DispatchQueueEntry)
    → (entries : List DispatchQueueEntry) (found : ℕ × DispatchQueueEntry)
    → (if b then later_best k entry best else best) ≡ some found
    → IsFound best k (entry ∷ entries) found
round-IsFound true best k entry entries found e = later_best-IsFound best k entry entries found e
round-IsFound false best k entry entries found e = inl e

highest_ticketed-IsFound :
    (id : String) (k : ℕ) (best : Option (ℕ × DispatchQueueEntry))
    → (entries : List DispatchQueueEntry) (found : ℕ × DispatchQueueEntry)
    → highest_ticketed id k best entries ≡ some found
    → IsFound best k entries found
unfolding highest_ticketed
highest_ticketed-IsFound id k best [] found e = inl e
highest_ticketed-IsFound id k best (entry ∷ entries) found e =
    IsFound-next _ best k entry entries found
      (highest_ticketed-IsFound id (suc k) _ entries found e)
      (round-IsFound (is_ticketed_for id entry) best k entry entries found)

or_else_cases :
    (a b : Option (ℕ × DispatchQueueEntry)) (found : ℕ × DispatchQueueEntry)
    → or_else a b ≡ some found
    → (a ≡ some found) ⊎ (b ≡ some found)
or_else_cases none b found e = inr e
or_else_cases (some a) b found e = inl e

-- The entry that stops an add stands at the index that the search gives.
pub live_entry_for_subject-get_elem? :
    (s : DispatchQueueState) (id : String) (i : ℕ) (entry : DispatchQueueEntry)
    → live_entry_for_subject s id ≡ some (i, entry)
    → get_elem? s.entries i ≡ some entry
unfolding live_entry_for_subject
live_entry_for_subject-get_elem? s id i entry e = elim (or_else_cases _ _ (i, entry) e) [
  | inl ticketed ↦ elim (highest_ticketed-IsFound id 0 none s.entries (i, entry) ticketed) [
    | inl f ↦ cc
    | inr (j, at, f) ↦ subst (λ n. get_elem? s.entries n ≡ some entry) (omega arith) f
  ]
  | inr waiting ↦ (locate_lem (is_waiting_for id) s.entries i entry waiting).0
]

ticket_canonical-get_elem? :
    (s : DispatchQueueState) (i : ℕ) (old : DispatchQueueEntry) (r : Result String String)
    → get_elem? s.entries i ≡ some old
    → (new : DispatchQueueEntry) × (get_elem? (ticket_canonical s i old r).0.entries i ≡ some new)
unfolding ticket_canonical
ticket_canonical-get_elem? s i old (err e) at = (old, at)
ticket_canonical-get_elem? s i old (ok id) at = (_, get_elem?-set_self s.entries i _ at)

ticket_dispatch-get_elem? :
    (s : DispatchQueueState) (i : ℕ) (old : DispatchQueueEntry) (dispatch : Option SubjectDispatch)
    → get_elem? s.entries i ≡ some old
    → (new : DispatchQueueEntry) × (get_elem? (ticket_dispatch s i old dispatch).0.entries i
        ≡ some new)
unfolding ticket_dispatch
ticket_dispatch-get_elem? s i old none at = (old, at)
ticket_dispatch-get_elem? s i old (some dispatch) at = ticket_canonical-get_elem? s i old _ at

ensure_parts-get_elem? :
    (s : DispatchQueueState) (i : ℕ) (old : DispatchQueueEntry) (g : Option ℕ) (id : Option String)
    → get_elem? s.entries i ≡ some old
    → (new : DispatchQueueEntry) × (get_elem? (ensure_parts s i old g id).0.entries i ≡ some new)
unfolding ensure_parts
ensure_parts-get_elem? s i old (some g) (some id) at = (old, at)
ensure_parts-get_elem? s i old (some g) none at = ticket_dispatch-get_elem? s i old old.dispatch at
ensure_parts-get_elem? s i old none id at = ticket_dispatch-get_elem? s i old old.dispatch at

-- The index that a ticket is given at is still an index.
pub ensure_ticket_identity-get_elem? :
    (s : DispatchQueueState) (i : ℕ) (old : DispatchQueueEntry)
    → get_elem? s.entries i ≡ some old
    → (new : DispatchQueueEntry) × (get_elem? (ensure_ticket_identity s i old).0.entries i
        ≡ some new)
unfolding ensure_ticket_identity
ensure_ticket_identity-get_elem? s i old at =
    ensure_parts-get_elem? s i old old.subject_generation old.subject_id at
