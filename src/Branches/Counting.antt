-- ===== src/Branches/Counting.antt =====
-- How many entries run on a branch, through the changes that the calls make to the entries.
use animus_queue_default.Common.{
  ℕ, zero, suc, ◌≤◌, ◌≡◌, refl, String, true, false, none, some, List, [], ◌∷◌, ◌++◌, All, arith,
  length, filter, get_elem?, set, remove_at, is_some,
}
use animus_queue_default.State.{DispatchQueueEntry}
use animus_queue_default.State.Entry.{is_ticketed}
use animus_queue_default.External.{External}
use animus_queue_default.Store.{migrate_missing_entry_ids}
use animus_queue_default.Service.Base.{sweep_entries}
use animus_queue_default.Fenced.Ticket.{is_running_on, first_assigned, running_entry_on_branch}

-- Only a ticketed entry reserves a branch.
abbrev pub IsTicketedOnly : DispatchQueueEntry → Type 0
IsTicketedOnly entry = is_some entry.repository ≡ true → is_ticketed entry ≡ true

module _ (x : External) where
  -- The number of entries that run on the branch `key`.
  abbrev pub running : String → List DispatchQueueEntry → ℕ
  running key entries = length (filter (is_running_on x key) entries)

  -- At most one entry runs on a branch, and old-style entries reserve none.
  pub record IsExclusive (entries : List DispatchQueueEntry) : Type 0 where
    pub ticketed_only : All IsTicketedOnly entries
    pub exclusive : (key : String) → running key entries ≤ 1

  -- `new` runs on no branch that `old` does not run on.
  abbrev pub RunsNoMore : DispatchQueueEntry → DispatchQueueEntry → Type 0
  RunsNoMore old new =
      (key : String) → is_running_on x key new ≡ true → is_running_on x key old ≡ true

  pub running-set-le :
      (key : String) (entries : List DispatchQueueEntry) (i : ℕ) (old new : DispatchQueueEntry)
      → get_elem? entries i ≡ some old
      → (is_running_on x key new ≡ true → is_running_on x key old ≡ true)
      → running key (set entries i new) ≤ running key entries
  running-set-le key [] i old new e h = omega arith
  running-set-le key (y ∷ ys) zero old new e h = ground arith
  running-set-le key (y ∷ ys) (suc i) old new e h =
      ground (arith, running-set-le key ys i old new e h)

  pub running-set-le_suc :
      (key : String) (entries : List DispatchQueueEntry) (i : ℕ) (new : DispatchQueueEntry)
      → running key (set entries i new) ≤ suc (running key entries)
  running-set-le_suc key [] i new = omega arith
  running-set-le_suc key (y ∷ ys) zero new = ground arith
  running-set-le_suc key (y ∷ ys) (suc i) new = ground (arith, running-set-le_suc key ys i new)

  pub running-remove_at-le :
      (key : String) (entries : List DispatchQueueEntry) (i : ℕ)
      → running key (remove_at entries i) ≤ running key entries
  running-remove_at-le key [] i = omega arith
  running-remove_at-le key (y ∷ ys) zero = ground arith
  running-remove_at-le key (y ∷ ys) (suc i) = ground (arith, running-remove_at-le key ys i)

  pub running-append_one :
      (key : String) (entries : List DispatchQueueEntry) (new : DispatchQueueEntry)
      → is_running_on x key new ≡ false
      → running key (entries ++ new ∷ []) ≤ running key entries
  running-append_one key [] new h = ground arith
  running-append_one key (y ∷ ys) new h = ground (arith, running-append_one key ys new h)

  pub running-sweep-le :
      (key : String) (now : ℕ) (entries : List DispatchQueueEntry)
      → running key (sweep_entries x now entries).0 ≤ running key entries
  unfolding sweep_entries
  running-sweep-le key now [] = omega arith
  running-sweep-le key now (y ∷ ys) = ground (arith, running-sweep-le key now ys)

  pub running-migrate :
      (key : String) (uuid : ℕ → String) (k : ℕ) (entries : List DispatchQueueEntry)
      → running key (migrate_missing_entry_ids uuid k entries).0 ≤ running key entries
  unfolding migrate_missing_entry_ids is_running_on
  running-migrate key uuid k [] = omega arith
  running-migrate key uuid k (y ∷ ys) =
      ground (arith, running-migrate key uuid (suc k) ys, running-migrate key uuid k ys)

  first_assigned-some :
      (key : String) (best : DispatchQueueEntry) (entries : List DispatchQueueEntry)
      → is_some (first_assigned x key (some best) entries) ≡ true
  unfolding first_assigned
  first_assigned-some key best [] = refl
  first_assigned-some key best (y ∷ ys) =
      ground (arith, first_assigned-some key best ys, first_assigned-some key y ys)

  first_assigned-none :
      (key : String) (entries : List DispatchQueueEntry)
      → first_assigned x key none entries ≡ none
      → running key entries ≡ 0
  unfolding first_assigned
  first_assigned-none key [] h = refl
  first_assigned-none key (y ∷ ys) h =
      ground (arith, first_assigned-some key y ys, first_assigned-none key ys)

  -- A branch on which the search finds nothing is free.
  pub running_entry_on_branch-none :
      (key : String) (entries : List DispatchQueueEntry)
      → running_entry_on_branch x entries key ≡ none
      → running key entries ≡ 0
  unfolding running_entry_on_branch
  running_entry_on_branch-none key entries h = first_assigned-none key entries h
