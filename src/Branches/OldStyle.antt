-- ===== src/Branches/OldStyle.antt =====
-- The exclusive use of branches through the changes that the old-style calls make to one entry.
use animus_queue_default.Common.{
  ℕ, ◌≡◌, refl, String, true, false, Option, some, List, All-get_elem?, arith, get_elem?, set, ok,
}
use animus_queue_default.State.{DispatchQueueEntry}
use animus_queue_default.State.Entry.{is_ticketed}
use animus_queue_default.External.{External, World}
use animus_queue_default.Service.Base.{QueueBackend}
use animus_queue_default.Service.Mutations.{hold_entry, release_entry, mark_entry, released_entry}
use animus_queue_default.Fenced.Ticket.{is_running_on}
use animus_queue_default.Branches.Counting.{IsTicketedOnly, IsExclusive}
use animus_queue_default.Branches.Changes.{set-IsExclusive}

module _ (x : External) {entries : List DispatchQueueEntry} (v : IsExclusive x entries) where
  pub IsTicketedOnly-at :
      (i : ℕ) (old : DispatchQueueEntry) → get_elem? entries i ≡ some old → IsTicketedOnly old
  IsTicketedOnly-at i old e = All-get_elem? IsTicketedOnly entries i old v.ticketed_only e

  -- An old-style entry reserves nothing, so it runs on no branch whatever becomes of its status.
  pub plain-IsExclusive :
      (i : ℕ) (old new : DispatchQueueEntry)
      → get_elem? entries i ≡ some old
      → is_ticketed old ≡ false
      → new.repository ≡ old.repository
      → new.subject_generation ≡ old.subject_generation
      → IsExclusive x (set entries i new)
  unfolding is_ticketed is_running_on
  plain-IsExclusive i old new e plain r g =
      let only = IsTicketedOnly-at i old e in
      set-IsExclusive x v i old new e (ground (arith, only)) (λ key runs. ground (arith, only))

  pub hold-IsExclusive :
      (w : World) (i : ℕ) (old new : DispatchQueueEntry)
      → get_elem? entries i ≡ some old
      → hold_entry x w old ≡ ok (new, true)
      → IsExclusive x (set entries i new)
  unfolding hold_entry is_ticketed is_running_on
  hold-IsExclusive w i old new e m =
      let only = IsTicketedOnly-at i old e in
      set-IsExclusive x v i old new e (ground (arith, only)) (λ key runs. ground arith)

  pub release-IsExclusive :
      (i : ℕ) (old new : DispatchQueueEntry)
      → get_elem? entries i ≡ some old
      → release_entry old ≡ ok (new, true)
      → IsExclusive x (set entries i new)
  unfolding release_entry is_ticketed is_running_on
  release-IsExclusive i old new e m =
      let only = IsTicketedOnly-at i old e in
      set-IsExclusive x v i old new e (ground (arith, only)) (λ key runs. ground arith)

  pub mark-IsExclusive :
      (b : QueueBackend) (w : World) (workflow_id : Option String) (i : ℕ)
      → (old new : DispatchQueueEntry) → get_elem? entries i ≡ some old
      → mark_entry x b w workflow_id old ≡ ok (new, true)
      → IsExclusive x (set entries i new)
  unfolding mark_entry
  mark-IsExclusive b w workflow_id i old new e m =
      plain-IsExclusive i old new e (ground arith) (ground arith) (ground arith)

  pub released-IsExclusive :
      (w : World) (reason : String) (i : ℕ) (old : DispatchQueueEntry)
      → get_elem? entries i ≡ some old
      → is_ticketed old ≡ false
      → IsExclusive x (set entries i (released_entry x w reason old))
  unfolding released_entry
  released-IsExclusive w reason i old e plain = plain-IsExclusive i old _ e plain refl refl
