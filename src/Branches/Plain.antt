-- ===== src/Branches/Plain.antt =====
-- `queue/lease` of src/queue_service.rs keeps its hands off tickets, and to its limit.
use animus_queue_default.Common.{
  ℕ, zero, suc, ◌+◌, ◌≤◌, ◌≡◌, String, Bool, true, false, Option, none, some, List, [], ◌∷◌, All,
  arith, length, get_elem?, set, Option-cases, inl, inr,
}
use animus_queue_default.Protocol.{QueueEntry}
use animus_queue_default.State.{DispatchQueueEntry, DispatchQueueState}
use animus_queue_default.State.Entry.{is_ticketed, subject_id_ref}
use animus_queue_default.External.{External, World}
use animus_queue_default.Service.Base.{QueueBackend, sweep_expired_entries, entry_to_protocol}
use animus_queue_default.Service.Lease.{
  choose, chosen_workflow_id, leased_entry, assign_chosen, push_wire, lease_state,
}
use animus_queue_default.Branches.Chosen.{
  IsPlainAt, choose-IsPlainFrom, All-plain_after, from_zero, leased_plain,
}

-- A write over an element that fails a test leaves those that pass it.
get_elem?-set_passing :
    {A : Type 0} (p : A → Bool) (xs : List A) (i j : ℕ) (v old a : A)
    → get_elem? xs i ≡ some old
    → p old ≡ false
    → get_elem? xs j ≡ some a
    → p a ≡ true
    → get_elem? (set xs i v) j ≡ some a
get_elem?-set_passing p [] i j v old a e n f h = cc
get_elem?-set_passing p (x ∷ xs) zero zero v old a e n f h = ground arith
get_elem?-set_passing p (x ∷ xs) zero (suc j) v old a e n f h = f
get_elem?-set_passing p (x ∷ xs) (suc i) zero v old a e n f h = f
get_elem?-set_passing p (x ∷ xs) (suc i) (suc j) v old a e n f h =
    get_elem?-set_passing p xs i j v old a e n f h

module _ (x : External) (b : QueueBackend) (w : World) where
  length-choose :
      (max : ℕ) (exclude : List String) (count k : ℕ) (entries : List DispatchQueueEntry)
      → count ≤ max
      → length (choose x b w max exclude count k entries) + count ≤ max
  unfolding choose
  length-choose max exclude count k [] h = omega arith
  length-choose max exclude count k (entry ∷ entries) h = ground (
    arith,
    length-choose max exclude count (suc k) entries h,
    length-choose max (subject_id_ref entry ∷ exclude) (suc count) (suc k) entries,
  )

  length-push_wire :
      (entry : Option QueueEntry) (leased : List QueueEntry)
      → length (push_wire x b w entry leased) ≤ suc (length leased)
  unfolding push_wire
  length-push_wire none leased = omega arith
  length-push_wire (some entry) leased = omega arith

  length-assign_chosen :
      (ids : Option (List String)) (slot : ℕ) (indices : List ℕ)
      → (entries : List DispatchQueueEntry)
      → length (assign_chosen x b w ids slot indices entries).1 ≤ length indices
  unfolding assign_chosen
  length-assign_chosen ids slot [] entries = omega arith
  length-assign_chosen ids slot (i ∷ indices) entries = elim (Option-cases (get_elem? entries i)) [
    | inl e ↦ rw (e, assign_chosen) (omega arith)
    | inr (old, e) ↦
        let taken = leased_entry x b w (chosen_workflow_id x b w ids slot old) old in
        rw (e, assign_chosen)
          (omega (
            arith,
            length-push_wire (entry_to_protocol x w taken)
                (assign_chosen x b w ids (suc slot) indices (set entries i taken)).1,
            length-assign_chosen ids (suc slot) indices (set entries i taken),
          ))
  ]

  assign_chosen-spares :
      (ids : Option (List String)) (slot : ℕ) (indices : List ℕ)
      → (entries : List DispatchQueueEntry) → All (IsPlainAt entries) indices
      → (j : ℕ) (entry : DispatchQueueEntry) → get_elem? entries j ≡ some entry
      → is_ticketed entry ≡ true
      → get_elem? (assign_chosen x b w ids slot indices entries).0 j ≡ some entry
  unfolding assign_chosen
  assign_chosen-spares ids slot [] entries h j entry f t = f
  assign_chosen-spares ids slot (i ∷ indices) entries (p, h) j entry f t =
      elim (Option-cases (get_elem? entries i)) [
        | inl e ↦ rw (e, assign_chosen) f
        | inr (old, e) ↦
            let taken = leased_entry x b w (chosen_workflow_id x b w ids slot old) old in
            rw (e, assign_chosen)
              (assign_chosen-spares ids (suc slot) indices (set entries i taken)
                (All-plain_after x b w entries i taken (leased_plain x b w _ old (p old e)) indices
                  h)
                j entry
                (get_elem?-set_passing is_ticketed entries i j taken old entry e (p old e) f t) t)
      ]

  -- Whatever ids and subjects `queue/lease` is given, what it makes of the state hands out at most
  -- `max` entries, and each ticketed entry that the sweep leaves stays as it is, at its place.
  pub lease_state-spares_ticketed :
      (max : ℕ) (ids : Option (List String)) (exclude : List String) (s : DispatchQueueState)
      → let swept = (sweep_expired_entries x w.now s).0.entries in
        let (state, leased, records) = lease_state x b w max ids exclude s in
        (length leased ≤ max)
        × ((j : ℕ) (entry : DispatchQueueEntry)
            → get_elem? swept j ≡ some entry
            → is_ticketed entry ≡ true
            → get_elem? state.entries j ≡ some entry)
  unfolding lease_state
  lease_state-spares_ticketed max ids exclude s =
      let swept = (sweep_expired_entries x w.now s).0.entries in
      let chosen = choose x b w max exclude 0 0 swept in
      (
        omega (
          arith,
          length-assign_chosen ids 0 chosen swept,
          length-choose max exclude 0 0 swept (omega arith),
        ),
        assign_chosen-spares ids 0 chosen swept
            (from_zero x b w swept chosen (choose-IsPlainFrom x b w max exclude 0 0 swept)),
      )
