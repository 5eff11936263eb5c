-- ===== src/Branches/Changes.antt =====
-- The exclusive use of branches through one change of the entries.
use animus_queue_default.Common.{
  ℕ, suc, ◌≡◌, String, true, false, some, List, [], ◌∷◌, ◌++◌, All, All-set, All-remove_at,
  All-append, arith, get_elem?, set, remove_at, Bool-cases, inl, inr,
}
use animus_queue_default.State.{DispatchQueueEntry, DispatchQueueState}
use animus_queue_default.External.{External}
use animus_queue_default.Store.{migrate_missing_entry_ids}
use animus_queue_default.Store.Stored.{IsStable, AnyHistory}
use animus_queue_default.State.Entry.{is_ticketed}
use animus_queue_default.Service.Base.{sweep_entries}
use animus_queue_default.Fenced.Ticket.{is_running_on}
use animus_queue_default.Branches.Counting.{
  IsTicketedOnly, IsExclusive, RunsNoMore, running, running-set-le, running-set-le_suc,
  running-remove_at-le, running-append_one, running-sweep-le, running-migrate,
}

IsTicketedOnly-sweep :
    (x : External) (now : ℕ) (entries : List DispatchQueueEntry)
    → All IsTicketedOnly entries
    → All IsTicketedOnly (sweep_entries x now entries).0
unfolding sweep_entries
IsTicketedOnly-sweep x now [] h = tt
IsTicketedOnly-sweep x now (y ∷ ys) h = ground (arith, IsTicketedOnly-sweep x now ys h.1)

IsTicketedOnly-migrate :
    (uuid : ℕ → String) (k : ℕ) (entries : List DispatchQueueEntry)
    → All IsTicketedOnly entries
    → All IsTicketedOnly (migrate_missing_entry_ids uuid k entries).0
unfolding migrate_missing_entry_ids is_ticketed
IsTicketedOnly-migrate uuid k [] h = tt
IsTicketedOnly-migrate uuid k (y ∷ ys) h =
    ground
      (arith, h.0, IsTicketedOnly-migrate uuid (suc k) ys h.1, IsTicketedOnly-migrate uuid k ys h.1)

module _ (x : External) {entries : List DispatchQueueEntry} (v : IsExclusive x entries) where
  pub set-IsExclusive :
      (i : ℕ) (old new : DispatchQueueEntry)
      → get_elem? entries i ≡ some old
      → IsTicketedOnly new
      → RunsNoMore x old new
      → IsExclusive x (set entries i new)
  set-IsExclusive i old new e t h = record {
    ticketed_only = All-set IsTicketedOnly entries i new v.ticketed_only t;
    exclusive =
        λ key. omega (arith, running-set-le x key entries i old new e (h key), v.exclusive key);
  }

  -- An entry may start to run on a branch that is free.
  pub set_free-IsExclusive :
      (i : ℕ) (old new : DispatchQueueEntry)
      → get_elem? entries i ≡ some old
      → IsTicketedOnly new
      → ((key : String) → is_running_on x key new ≡ true → running x key entries ≡ 0)
      → IsExclusive x (set entries i new)
  set_free-IsExclusive i old new e t free = record {
    ticketed_only = All-set IsTicketedOnly entries i new v.ticketed_only t;
    exclusive = λ key. elim (Bool-cases (is_running_on x key new)) [
      | inl runs ↦ omega (arith, running-set-le_suc x key entries i new, free key runs)
      | inr idle ↦
          omega (arith, running-set-le x key entries i old new e (λ runs. cc), v.exclusive key)
    ];
  }

  pub remove_at-IsExclusive : (i : ℕ) → IsExclusive x (remove_at entries i)
  remove_at-IsExclusive i = record {
    ticketed_only = All-remove_at IsTicketedOnly entries i v.ticketed_only;
    exclusive = λ key. omega (arith, running-remove_at-le x key entries i, v.exclusive key);
  }

  -- A new entry waits.
  pub append-IsExclusive :
      (new : DispatchQueueEntry)
      → IsTicketedOnly new
      → ((key : String) → is_running_on x key new ≡ false)
      → IsExclusive x (entries ++ new ∷ [])
  append-IsExclusive new t idle = record {
    ticketed_only = All-append IsTicketedOnly entries (new ∷ []) v.ticketed_only (t, tt);
    exclusive =
        λ key. omega (arith, running-append_one x key entries new (idle key), v.exclusive key);
  }

  pub sweep-IsExclusive : (now : ℕ) → IsExclusive x (sweep_entries x now entries).0
  sweep-IsExclusive now = record {
    ticketed_only = IsTicketedOnly-sweep x now entries v.ticketed_only;
    exclusive = λ key. omega (arith, running-sweep-le x key now entries, v.exclusive key);
  }

  migrate-IsExclusive :
      (uuid : ℕ → String) (k : ℕ) → IsExclusive x (migrate_missing_entry_ids uuid k entries).0
  migrate-IsExclusive uuid k = record {
    ticketed_only = IsTicketedOnly-migrate uuid k entries v.ticketed_only;
    exclusive = λ key. omega (arith, running-migrate x key uuid k entries, v.exclusive key);
  }

-- The invariant of a state.
abbrev pub Exclusive : External → DispatchQueueState → Type 0
Exclusive x s = IsExclusive x s.entries

pub Exclusive-stable : (x : External) → IsStable (Exclusive x) AnyHistory
Exclusive-stable x = record {
  appended = λ h bytes u. tt;
  at_default = record { ticketed_only = tt; exclusive = λ key. omega arith };
  stamped = λ s v. v;
  migrated = λ uuid k s v. migrate-IsExclusive x v uuid k;
}
