-- ===== src/Calls/Growth.antt =====
-- The history file over any sequence of calls: it only grows.
use mathlib.Core.List.{append-nil, append_assoc}
use animus_queue_default.Common.{
  ℕ, ◌≡◌, refl, sym, ap, ◌∙◌, Option, none, some, List, [], ◌++◌, unwrap_or,
}
use animus_queue_default.State.{DispatchQueueState}
use animus_queue_default.External.{External, World}
use animus_queue_default.Io.{Disk, QueueFile, blank, unreadable, full, legacy}
use animus_queue_default.Store.Stored.{IsStable, OptionHolds}
use animus_queue_default.Service.Base.{QueueBackend}
use animus_queue_default.Service.Durability.{history_bytes}
use animus_queue_default.Calls.{Call, after_calls}
use animus_queue_default.Calls.Kept.{IsKept, after_calls-Stored}

-- `after` begins with `before`.
abbrev pub IsExtended : List ℕ → List ℕ → Type 0
IsExtended before after = (more : List ℕ) × (after ≡ before ++ more)

pub IsExtended-refl : (bytes : List ℕ) → IsExtended bytes bytes
IsExtended-refl bytes = ([], sym (append-nil bytes))

pub IsExtended-trans :
    (first : List ℕ) {second third : List ℕ}
    → IsExtended first second
    → IsExtended second third
    → IsExtended first third
IsExtended-trans first (m, e) (n, f) =
    (m ++ n, f ∙ ap (λ bytes. bytes ++ n) e ∙ append_assoc first m n)

abbrev AnyState : DispatchQueueState → Type 0
AnyState s = Unit {0}

module _ (x : External) (b : QueueBackend) where
  -- Nothing is asked of the state.
  AnyState-IsKept : IsKept x b AnyState
  AnyState-IsKept = record {
    sweep = λ w s u. tt;
    plain_add = λ w dispatch run_at expire s u. tt;
    plain_lease = λ w max ids exclude s u. tt;
    held = λ w s i old new u e m. tt;
    unheld = λ s i old new u e m. tt;
    marked = λ w workflow s i old new u e m. tt;
    removed = λ s i u. tt;
    put_back = λ w reason s i old u e plain. tt;
    sorted = λ ids s u. tt;
    ticketed = λ s i old u e. tt;
    key_bound = λ w key hash s i old u. tt;
    ticket_add = λ w request s u. tt;
    ticket_lease = λ w s i old owner expires workflow u e free. tt;
    ticket_change = λ w s i old new u e runs c. tt;
  }

  AnyState-IsStable :
      (before : List ℕ) → IsStable AnyState (λ history. IsExtended before (unwrap_or history []))
  AnyState-IsStable before = record {
    at_default = tt;
    stamped = λ s u. tt;
    migrated = λ uuid k s u. tt;
    appended = λ history bytes e. IsExtended-trans before e (bytes, refl);
  }

  OptionHolds-AnyState : (json : Option QueueFile) → OptionHolds AnyState json
  OptionHolds-AnyState none = tt
  OptionHolds-AnyState (some blank) = tt
  OptionHolds-AnyState (some unreadable) = tt
  OptionHolds-AnyState (some (full state)) = tt
  OptionHolds-AnyState (some (legacy entries)) = tt

  -- Whatever calls are made, and whatever fails, the history begins with what it held before.
  pub after_calls-IsExtended :
      (calls : List (World × Call)) (d : Disk)
      → IsExtended (history_bytes d) (history_bytes (after_calls x b calls d))
  after_calls-IsExtended calls d =
      (after_calls-Stored x b AnyState
        (λ history. IsExtended (history_bytes d) (unwrap_or history []))
        (AnyState-IsStable (history_bytes d)) AnyState-IsKept calls d
        (OptionHolds-AnyState d.queue_json, IsExtended-refl (history_bytes d))).1
