-- ===== src/Io.antt =====
-- Calls that read and write the disk and may fail.
pub mod Keeps
use animus_queue_default.Common.{ℕ, String, Option, List, Result, ok, err, map_err}
use animus_queue_default.State.{DispatchQueueEntry, DispatchQueueState}

-- What a load reads from the text of `queue.json`: blank, a state, the older bare list of entries, or
-- neither. Store/Text has the JSON that each is read from; a save leaves the JSON of a state.
pub data QueueFile : Type 0 where
  blank unreadable : QueueFile
  full : DispatchQueueState → QueueFile
  legacy : List DispatchQueueEntry → QueueFile

-- `.animus/queue.json`, and the bytes of `.animus/queue-history.jsonl`.
pub record Disk : Type 0 where
  pub queue_json : Option QueueFile
  pub history : Option (List ℕ)

-- The errors behind `anyhow::Error`, by what failed.
pub data IoError : Type 0 where
  lock_failed read_failed parse_failed write_failed append_failed history_read_failed : IoError
  newer_format : ℕ → IoError
  other : String → IoError

abbrev pub Io : Type 0 → Type 0 → Type 0
Io E A = Disk → Disk × Result E A

abbrev pub pure : {E A : Type 0} → A → Io E A
pure a d = (d, ok a)

abbrev pub raise : {E A : Type 0} → E → Io E A
raise e d = (d, err e)

abbrev pub continue : {E A B : Type 0} → Disk → Result E A → (A → Io E B) → Disk × Result E B
continue d (ok a) f = f a d
continue d (err e) f = (d, err e)

infixl 5 ◌>>=◌ ◌>>◌
abbrev pub ◌>>=◌ : {E A B : Type 0} → Io E A → (A → Io E B) → Io E B
◌>>=◌ m f d = let (d', r) = m d in continue d' r f

abbrev pub ◌>>◌ : {E B : Type 0} → Io E (Unit {0}) → Io E B → Io E B
m >> k = m >>= λ _. k

-- `.map_err(f)?`, which is also what `?` does by `From`.
abbrev pub lift : {E F A : Type 0} → (E → F) → Io E A → Io F A
lift f m d = let (d', r) = m d in (d', map_err f r)

abbrev pub lift_result : {E A : Type 0} → Result E A → Io E A
lift_result r d = (d, r)
