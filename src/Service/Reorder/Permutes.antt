-- ===== src/Service/Reorder/Permutes.antt =====
-- `queue/reorder` moves entries, and neither loses nor makes one.
use mathlib.Core.List.{Perm, perm_middle}
use mathlib.Core.List.Perm
use mathlib.Core.Option
use mathlib.Core.Option.{some-injective}
use animus_queue_default.Common.{
  ◌≡◌, refl, sym, ap, subst, ◌∙◌, String, Bool, true, false, Option, none, some, List, [], ◌∷◌,
  ◌++◌, ◌==◌, All, length, filter, arith, Bool-cases, Option-cases, inl, inr,
}
use animus_queue_default.State.{DispatchQueueEntry}
use animus_queue_default.Service.Reorder.{
  Marked, unmarked, keep_mark, take_named, pull_named, unconsumed, reordered,
}

-- `entry` stands somewhere in `before`, and `after` is the rest.
abbrev Splits : List DispatchQueueEntry → DispatchQueueEntry → List DispatchQueueEntry → Type 0
Splits before entry after =
    (front : List DispatchQueueEntry) × (back : List DispatchQueueEntry) × (before
      ≡ front ++ entry ∷ back)
    × (after ≡ front ++ back)

Splits-unconsumed :
    (consumed : Bool) (e entry : DispatchQueueEntry) (rest rest' : List Marked)
    → Splits (unconsumed rest) entry (unconsumed rest')
    → Splits (unconsumed ((consumed, e) ∷ rest)) entry (unconsumed ((consumed, e) ∷ rest'))
unfolding unconsumed
Splits-unconsumed true e entry rest rest' h = h
Splits-unconsumed false e entry rest rest' (front, back, p, q) =
    (e ∷ front, back, ap (◌∷◌ e) p, ap (◌∷◌ e) q)

-- What `take_named` gives for the rest, with one more entry in front that it passed over.
passed_over :
    (id : String) (consumed : Bool) (first : DispatchQueueEntry) (rest : List Marked)
    → ((entry : DispatchQueueEntry) (rest' : List Marked)
        → take_named id rest ≡ some (entry, rest')
        → Splits (unconsumed rest) entry (unconsumed rest'))
    → (found : Option (DispatchQueueEntry × List Marked)) → take_named id rest ≡ found
    → (entry : DispatchQueueEntry) (marked' : List Marked)
    → Option.map (keep_mark (consumed, first)) found ≡ some (entry, marked')
    → Splits (unconsumed ((consumed, first) ∷ rest)) entry (unconsumed marked')
unfolding keep_mark
passed_over id consumed first rest ih none f entry marked' e = cc
passed_over id consumed first rest ih (some (other, rest')) f entry marked' e =
    subst
      (λ (p : DispatchQueueEntry × List Marked).
        Splits (unconsumed ((consumed, first) ∷ rest)) p.0 (unconsumed p.1))
      (some-injective _ _ e) (Splits-unconsumed consumed first other rest rest' (ih other rest' f))

take_named-Splits :
    (id : String) (marked : List Marked) (entry : DispatchQueueEntry) (marked' : List Marked)
    → take_named id marked ≡ some (entry, marked')
    → Splits (unconsumed marked) entry (unconsumed marked')
unfolding take_named unconsumed
take_named-Splits id [] entry marked' e = cc
take_named-Splits id ((true, first) ∷ rest) entry marked' e =
    passed_over id true first rest (take_named-Splits id rest) (take_named id rest) refl entry
      marked' e
take_named-Splits id ((false, first) ∷ rest) entry marked' e =
    elim (Bool-cases (first.entry_id == id)) [
      | inl hit ↦
          subst
            (λ (p : DispatchQueueEntry × List Marked).
              Splits (first ∷ unconsumed rest) p.0 (unconsumed p.1))
            (some-injective _ _ (rw (hit, take_named) at e)) ([], unconsumed rest, refl, refl)
      | inr miss ↦
          passed_over id false first rest (take_named-Splits id rest) (take_named id rest) refl
            entry marked' (rw (miss, take_named) at e)
    ]

pull_named-perm :
    (ids : List String) (marked : List Marked)
    → Perm ((pull_named ids marked).0 ++ unconsumed (pull_named ids marked).1) (unconsumed marked)
unfolding pull_named
pull_named-perm [] marked = Perm.refl (unconsumed marked)
pull_named-perm (id ∷ ids) marked = elim (Option-cases (take_named id marked)) [
  | inl e ↦ rw (e, pull_named) (pull_named-perm ids marked)
  | inr ((entry, marked'), e) ↦
      let (front, back, before, after) = take_named-Splits id marked entry marked' e in
      rw (e, pull_named)
        (rw before (
          Perm.trans (Perm.cons entry (subst (Perm _) after (pull_named-perm ids marked')))
            (Perm.symm (perm_middle front back))))
]

unconsumed-unmarked : (entries : List DispatchQueueEntry) → unconsumed (unmarked entries) ≡ entries
unfolding unconsumed
unconsumed-unmarked [] = refl
unconsumed-unmarked (entry ∷ entries) = ap (◌∷◌ entry) (unconsumed-unmarked entries)

-- Whatever ids are named, known or not, once or more often, the new order holds the same entries.
pub reordered-perm :
    (ids : List String) (entries : List DispatchQueueEntry) → Perm (reordered ids entries) entries
unfolding reordered
reordered-perm ids entries =
    subst (Perm _) (unconsumed-unmarked entries) (pull_named-perm ids (unmarked entries))

module _ (p : DispatchQueueEntry → Bool) where
  count-middle :
      (front back : List DispatchQueueEntry) (entry : DispatchQueueEntry)
      → length (filter p (front ++ entry ∷ back)) ≡ length (filter p (entry ∷ front ++ back))
  count-middle [] back entry = refl
  count-middle (e ∷ front) back entry = ground (arith, count-middle front back entry)

  count-pull :
      (ids : List String) (marked : List Marked)
      → length (filter p ((pull_named ids marked).0 ++ unconsumed (pull_named ids marked).1))
        ≡ length (filter p (unconsumed marked))
  unfolding pull_named
  count-pull [] marked = refl
  count-pull (id ∷ ids) marked = elim (Option-cases (take_named id marked)) [
    | inl e ↦ rw (e, pull_named) (count-pull ids marked)
    | inr ((entry, marked'), e) ↦
        let (front, back, before, after) = take_named-Splits id marked entry marked' e in
        rw (e, pull_named)
          (rw before (
            ground (
              arith,
              count-middle front back entry,
              count-pull ids marked' ∙ ap (λ l. length (filter p l)) after,
            )))
  ]

  -- The number of entries that pass a test stays.
  pub count-reordered :
      (ids : List String) (entries : List DispatchQueueEntry)
      → length (filter p (reordered ids entries)) ≡ length (filter p entries)
  unfolding reordered
  count-reordered ids entries =
      count-pull ids (unmarked entries)
      ∙ ap (λ l. length (filter p l)) (unconsumed-unmarked entries)

module _ (P : DispatchQueueEntry → Type 0) where
  All-middle :
      (front back : List DispatchQueueEntry) (entry : DispatchQueueEntry)
      → All P (front ++ entry ∷ back)
      → All P (entry ∷ front ++ back)
  All-middle [] back entry h = h
  All-middle (e ∷ front) back entry (q, h) =
      let (r, rest) = All-middle front back entry h in (r, (q, rest))

  All-pull :
      (ids : List String) (marked : List Marked)
      → All P (unconsumed marked)
      → All P ((pull_named ids marked).0 ++ unconsumed (pull_named ids marked).1)
  unfolding pull_named
  All-pull [] marked h = h
  All-pull (id ∷ ids) marked h = elim (Option-cases (take_named id marked)) [
    | inl e ↦ rw (e, pull_named) (All-pull ids marked h)
    | inr ((entry, marked'), e) ↦
        let (front, back, before, after) = take_named-Splits id marked entry marked' e in
        let (r, rest) = All-middle front back entry (subst (All P) before h) in
        rw (e, pull_named) (r, All-pull ids marked' (subst (All P) (sym after) rest))
  ]

  pub All-reordered :
      (ids : List String) (entries : List DispatchQueueEntry)
      → All P entries
      → All P (reordered ids entries)
  unfolding reordered
  All-reordered ids entries h =
      All-pull ids (unmarked entries) (subst (All P) (sym (unconsumed-unmarked entries)) h)
