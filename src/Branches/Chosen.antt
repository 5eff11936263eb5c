-- ===== src/Branches/Chosen.antt =====
-- The exclusive use of branches through the loop of `queue/lease`, which takes old-style entries
-- only.
use animus_queue_default.Common.{
  ℕ, suc, ◌+◌, ◌≡◌, refl, String, true, false, Option, some, List, [], ◌∷◌, All, ◌==◌, arith,
  get_elem?, get_elem?-set, set, any, eqb, Bool-cases, Option-cases, inl, inr, subst,
}
use animus_queue_default.State.{DispatchQueueEntry, DispatchQueueState}
use animus_queue_default.State.Entry.{is_ticketed, subject_id_ref}
use animus_queue_default.External.{External, World}
use animus_queue_default.Service.Base.{QueueBackend, sweep_entries, sweep_expired_entries}
use animus_queue_default.Service.Lease.{
  is_candidate, choose, chosen_workflow_id, leased_entry, assign_chosen, lease_state,
}
use animus_queue_default.Branches.Counting.{IsExclusive}
use animus_queue_default.Branches.Changes.{Exclusive, sweep-IsExclusive}
use animus_queue_default.Branches.OldStyle.{plain-IsExclusive}

-- What stands at the index is no ticketed entry.
abbrev pub IsPlainAt : List DispatchQueueEntry → ℕ → Type 0
IsPlainAt entries i =
    (entry : DispatchQueueEntry) → get_elem? entries i ≡ some entry → is_ticketed entry ≡ false

-- The index is at least `k`, and what stands at the difference is no ticketed entry.
abbrev pub IsPlainFrom : ℕ → List DispatchQueueEntry → ℕ → Type 0
IsPlainFrom k entries i = (j : ℕ) × (i ≡ k + j) × IsPlainAt entries j

plain_later :
    (k : ℕ) (entry : DispatchQueueEntry) (entries : List DispatchQueueEntry) (indices : List ℕ)
    → All (IsPlainFrom (suc k) entries) indices
    → All (IsPlainFrom k (entry ∷ entries)) indices
plain_later k entry entries [] h = tt
plain_later k entry entries (i ∷ indices) ((j, at, p), h) =
    ((suc j, omega arith, p), plain_later k entry entries indices h)

module _ (x : External) (b : QueueBackend) (w : World) where
  candidate_plain :
      (entry : DispatchQueueEntry) → is_candidate x b w entry ≡ true → is_ticketed entry ≡ false
  unfolding is_candidate
  candidate_plain entry e = ground arith

  -- The loop chooses no ticketed entry.
  pub choose-IsPlainFrom :
      (max : ℕ) (exclude : List String) (count k : ℕ) (entries : List DispatchQueueEntry)
      → All (IsPlainFrom k entries) (choose x b w max exclude count k entries)
  unfolding choose
  choose-IsPlainFrom max exclude count k [] = tt
  choose-IsPlainFrom max exclude count k (entry ∷ entries) =
      let subject = subject_id_ref entry in
      let skip =
        plain_later k entry entries _ (choose-IsPlainFrom max exclude count (suc k) entries) in
      let next =
        plain_later k entry entries _
          (choose-IsPlainFrom max (subject ∷ exclude) (suc count) (suc k) entries) in
      elim (Bool-cases (eqb count max)) [
        | inl full ↦ rw (full, choose) tt
        | inr room ↦ elim (Bool-cases (is_candidate x b w entry)) [
          | inr no_candidate ↦ rw (room, no_candidate, choose) skip
          | inl candidate ↦ elim (Bool-cases (any (λ s. s == subject) exclude)) [
            | inl taken ↦ rw (room, candidate, taken, choose) skip
            | inr fresh ↦
                rw (room, candidate, fresh, choose)
                  ((0, omega arith, λ e at. ground (arith, candidate_plain entry candidate)), next)
          ]
        ]
      ]

  pub plain_after :
      (entries : List DispatchQueueEntry) (i : ℕ) (new : DispatchQueueEntry)
      → is_ticketed new ≡ false
      → (j : ℕ) → IsPlainAt entries j
      → IsPlainAt (set entries i new) j
  plain_after entries i new plain j h e at = elim (get_elem?-set entries i j new e at) [
    | inl written ↦ rw written plain
    | inr before ↦ h e before
  ]

  pub All-plain_after :
      (entries : List DispatchQueueEntry) (i : ℕ) (new : DispatchQueueEntry)
      → is_ticketed new ≡ false
      → (indices : List ℕ) → All (IsPlainAt entries) indices
      → All (IsPlainAt (set entries i new)) indices
  All-plain_after entries i new plain [] h = tt
  All-plain_after entries i new plain (j ∷ indices) (p, h) =
      (plain_after entries i new plain j p, All-plain_after entries i new plain indices h)

  pub from_zero :
      (entries : List DispatchQueueEntry) (indices : List ℕ)
      → All (IsPlainFrom 0 entries) indices
      → All (IsPlainAt entries) indices
  from_zero entries [] h = tt
  from_zero entries (i ∷ indices) ((j, at, p), h) =
      (subst (IsPlainAt entries) (omega arith) p, from_zero entries indices h)

  pub leased_plain :
      (id : String) (old : DispatchQueueEntry)
      → is_ticketed old ≡ false
      → is_ticketed (leased_entry x b w id old) ≡ false
  unfolding leased_entry is_ticketed
  leased_plain id old h = h

  leased-IsExclusive :
      (entries : List DispatchQueueEntry) (i : ℕ) (id : String) (old : DispatchQueueEntry)
      → get_elem? entries i ≡ some old
      → is_ticketed old ≡ false
      → IsExclusive x entries
      → IsExclusive x (set entries i (leased_entry x b w id old))
  unfolding leased_entry
  leased-IsExclusive entries i id old e plain v = plain-IsExclusive x v i old _ e plain refl refl

  assign_chosen-IsExclusive :
      (workflow_ids : Option (List String)) (slot : ℕ) (indices : List ℕ)
      → (entries : List DispatchQueueEntry) → All (IsPlainAt entries) indices
      → IsExclusive x entries
      → IsExclusive x (assign_chosen x b w workflow_ids slot indices entries).0
  unfolding assign_chosen
  assign_chosen-IsExclusive ids slot [] entries h v = v
  assign_chosen-IsExclusive ids slot (i ∷ indices) entries (p, h) v =
      elim (Option-cases (get_elem? entries i)) [
        | inl e ↦ rw (e, assign_chosen) v
        | inr (old, e) ↦
            let taken = leased_entry x b w (chosen_workflow_id x b w ids slot old) old in
            rw (e, assign_chosen)
              (assign_chosen-IsExclusive ids (suc slot) indices (set entries i taken)
                (All-plain_after entries i taken (leased_plain _ old (p old e)) indices h)
                (leased-IsExclusive entries i _ old e (p old e) v))
      ]

  pub lease_state-Exclusive :
      (max : ℕ) (workflow_ids : Option (List String)) (exclude : List String)
      → (s : DispatchQueueState) → Exclusive x s
      → Exclusive x (lease_state x b w max workflow_ids exclude s).0
  unfolding lease_state sweep_expired_entries
  lease_state-Exclusive max ids exclude s v =
      let swept = (sweep_entries x w.now s.entries).0 in
      assign_chosen-IsExclusive ids 0 _ swept
        (from_zero swept _ (choose-IsPlainFrom max exclude 0 0 swept)) (sweep-IsExclusive x v w.now)
