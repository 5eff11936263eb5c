-- ===== src/Service/Listing/Deadlines.antt =====
-- The deadline of `queue/next_deadline` of src/queue_service.rs.
use animus_queue_default.Common.{
  ◌⊎◌, ◌∙◌, subst, sym, ap, some, leb, Bool-cases, ℕ, zero, suc, ◌<◌, String, ltb, and_then,
  and_then-some, if◌then◌else◌, ◌≤◌, ◌≡◌, refl, Option, none, List, [], ◌∷◌, arith, get_elem?, min,
  inl, inr,
}
use mathlib.Core.Option.{some-injective}
use animus_queue_default.State.{
  DispatchQueueEntry, DispatchQueueEntryStatus, pending, assigned, held, unknown, status_eq,
}
use animus_queue_default.State.Entry.{parsed_run_at}
use animus_queue_default.External.{External, World}
use animus_queue_default.Service.Listing.{earlier, earliest, future_run_at}

module _ (x : External) (w : World) where
  -- The instant is there, and at most `t`.
  abbrev pub IsBy : Option ℕ → ℕ → Type 0
  IsBy o t = (m : ℕ) × (o ≡ some m) × (m ≤ t)

  earlier-left : (t : ℕ) (o : Option ℕ) → IsBy (earlier x w (some t) o) t
  unfolding earlier
  earlier-left t none = (t, refl, omega arith)
  earlier-left t (some u) = (min t u, refl, omega arith)

  earlier-right : (o p : Option ℕ) (t : ℕ) → IsBy p t → IsBy (earlier x w o p) t
  unfolding earlier
  earlier-right none p t h = h
  earlier-right (some a) none t (m, e, le) = cc
  earlier-right (some a) (some u) t (m, e, le) = (min a u, refl, ground (arith, e))

  least :
      (entries : List DispatchQueueEntry) (i : ℕ) (entry : DispatchQueueEntry) (t : ℕ)
      → get_elem? entries i ≡ some entry
      → future_run_at x w entry ≡ some t
      → IsBy (earliest x w entries) t
  unfolding earliest
  least [] i entry t e f = cc
  least (y ∷ ys) zero entry t e f =
      subst (λ o. IsBy (earlier x w o (earliest x w ys)) t)
        (sym (ap (future_run_at x w) (some-injective _ _ e) ∙ f)) (earlier-left t (earliest x w ys))
  least (y ∷ ys) (suc i) entry t e f =
      earlier-right (future_run_at x w y) (earliest x w ys) t (least ys i entry t e f)

  earlier-attained :
      (o p : Option ℕ) (m : ℕ) → earlier x w o p ≡ some m → (o ≡ some m) ⊎ (p ≡ some m)
  unfolding earlier
  earlier-attained none p m e = inr e
  earlier-attained (some a) none m e = inl e
  earlier-attained (some a) (some u) m e = elim (Bool-cases (leb a u)) [
    | inl first ↦ inl (ground (arith, first, e))
    | inr second ↦ inr (ground (arith, second, e))
  ]

  -- A waiting entry becomes due at the instant `m` that its `run_at` names, after the present one.
  pub record IsDue (entry : DispatchQueueEntry) (m : ℕ) : Type 0 where
    pub run_at : String
    pub waits : entry.status ≡ pending
    pub deferred : entry.run_at ≡ some run_at
    pub names : x.parse_from_rfc3339 run_at ≡ some m
    pub later : w.now < m

  after_now :
      (o : Option ℕ) (m : ℕ)
      → elim o [ none ↦ none | some t ↦ if ltb w.now t then some t else none ] ≡ some m
      → (o ≡ some m) × (w.now < m)
  after_now none m e = absurd (ground arith)
  after_now (some t) m e = ground (arith, e)

  due_parts :
      (status : DispatchQueueEntryStatus) (run_at : Option String) (m : ℕ)
      → (if status_eq status pending
          then elim (and_then run_at x.parse_from_rfc3339) [
            | none ↦ none
            | some t ↦ if ltb w.now t then some t else none
          ]
          else none)
        ≡ some m
      → (text : String) × (status ≡ pending)
        × (run_at ≡ some text)
        × (x.parse_from_rfc3339 text ≡ some m)
        × (w.now < m)
  due_parts pending run_at m e =
      let (read, later) = after_now _ m e in
      let (text, deferred, names) = and_then-some run_at x.parse_from_rfc3339 m read in
      (text, refl, deferred, names, later)
  due_parts assigned run_at m e = absurd (ground arith)
  due_parts held run_at m e = absurd (ground arith)
  due_parts unknown run_at m e = absurd (ground arith)

  future_run_at-IsDue :
      (entry : DispatchQueueEntry) (m : ℕ) → future_run_at x w entry ≡ some m → IsDue entry m
  unfolding future_run_at parsed_run_at
  future_run_at-IsDue entry m e =
      let (text, waits, deferred, names, later) = due_parts entry.status entry.run_at m e in
      record { run_at = text; waits = waits; deferred = deferred; names = names; later = later }

  IsDue-future_run_at :
      (entry : DispatchQueueEntry) (m : ℕ) → IsDue entry m → future_run_at x w entry ≡ some m
  unfolding future_run_at parsed_run_at
  IsDue-future_run_at entry m h = ground (arith, h.waits, h.deferred, h.names, h.later)

  -- One of the entries becomes due at `m`.
  abbrev pub IsDueAt : List DispatchQueueEntry → ℕ → Type 0
  IsDueAt entries m =
      (i : ℕ) × (entry : DispatchQueueEntry) × (get_elem? entries i ≡ some entry) × IsDue entry m

  attained :
      (entries : List DispatchQueueEntry) (m : ℕ)
      → earliest x w entries ≡ some m
      → IsDueAt entries m
  unfolding earliest
  attained [] m e = cc
  attained (y ∷ ys) m e = elim (earlier-attained (future_run_at x w y) (earliest x w ys) m e) [
    | inl here ↦ (0, y, refl, future_run_at-IsDue y m here)
    | inr there ↦ let (i, entry, at, f) = attained ys m there in (suc i, entry, at, f)
  ]

  -- The deadline of a queue is the instant, later than the present one, that the `run_at` of a
  -- waiting entry names, and no waiting entry's names an earlier one that is later than the present;
  -- if one names a later instant, there is a deadline.
  pub earliest-minimal :
      (entries : List DispatchQueueEntry)
      → ((m : ℕ) → earliest x w entries ≡ some m → IsDueAt entries m)
        × ((t : ℕ) → IsDueAt entries t → IsBy (earliest x w entries) t)
  earliest-minimal entries = (
    attained entries,
    λ t due. least entries due.0 due.1 t due.2 (IsDue-future_run_at due.1 t due.3),
  )
