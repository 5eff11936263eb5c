-- ===== src/Service/Listing.antt =====
-- The calls of src/queue_service.rs that read: `queue/list`, `queue/stats` and
-- `queue/next_deadline`, which also sweeps.
pub mod Stored
pub mod Pages
pub mod Deadlines
use mathlib.Core.Option
use animus_queue_default.Common.{
  ℕ, String, Bool, ◌&&◌, ◌||◌, Option, none, some, List, [], ◌∷◌, ◌==◌, ltb, leb, any, length, take,
  drop, filter, is_empty, unwrap_or, max, min, if◌then◌else◌,
}
use animus_queue_default.Protocol.{QueueEntry, QueueStats}
use animus_queue_default.State.{
  DispatchQueueEntry, DispatchQueueEntryStatus, DispatchQueueState, pending, assigned, held,
  as_wire, status_eq,
}
use animus_queue_default.State.Entry.{is_deferred_until_future, parsed_run_at}
use animus_queue_default.History.Record.{HistoryRecord}
use animus_queue_default.External.{External, World}
use animus_queue_default.Io.{Io, IoError, pure, ◌>>=◌, ◌>>◌}
use animus_queue_default.Store.{acquire_queue_lock}
use animus_queue_default.Service.Base.{
  load_or_default, commit, sweep_expired_entries, entry_to_protocol,
}

abbrev pub default_list_limit : ℕ
default_list_limit = 500

abbrev pub max_list_limit : ℕ
max_list_limit = 2000

pub record QueueListResponse : Type 0 where
  pub entries : List QueueEntry
  pub total : ℕ
  pub stats : QueueStats

count_status : DispatchQueueEntryStatus → List DispatchQueueEntry → ℕ
count_status status entries =
    length (filter (λ (entry : DispatchQueueEntry). status_eq entry.status status) entries)

module _ (x : External) (w : World) where
  unfoldable pub stats_from_state : DispatchQueueState → QueueStats
  unfolding count_status
  stats_from_state state = record {
    total = length state.entries;
    pending = count_status pending state.entries;
    assigned = count_status assigned state.entries;
    held = count_status held state.entries;
    deferred = length (
        filter
          (λ (entry : DispatchQueueEntry).
            status_eq entry.status pending && is_deferred_until_future x entry w.now)
          state.entries);
  }

  unfoldable pub is_listed : List String → DispatchQueueEntry → Bool
  is_listed status_filter entry =
      is_empty status_filter || any (λ allowed. allowed == as_wire entry.status) status_filter

  -- `limit.unwrap_or(500).clamp(1, 2000)`.
  unfoldable pub page_size : Option ℕ → ℕ
  page_size limit =
      let wanted = unwrap_or limit default_list_limit in min max_list_limit (max 1 wanted)

  unfoldable pub page : Option ℕ → Option ℕ → List DispatchQueueEntry → List DispatchQueueEntry
  unfolding page_size
  page limit offset entries =
      let from = unwrap_or offset 0 in
      take (page_size limit) (if leb (length entries) from then [] else drop from entries)

  push_some : Option QueueEntry → List QueueEntry → List QueueEntry
  push_some none entries = entries
  push_some (some entry) entries = entry ∷ entries

  unfoldable pub wire_entries : List DispatchQueueEntry → List QueueEntry
  unfolding push_some
  wire_entries [] = []
  wire_entries (entry ∷ entries) = push_some (entry_to_protocol x w entry) (wire_entries entries)

  unfoldable pub list : List String → Option ℕ → Option ℕ → Io IoError QueueListResponse
  unfolding stats_from_state is_listed page wire_entries
  list status_filter limit offset = do
    acquire_queue_lock w
    state ← load_or_default w
    let filtered = filter (is_listed status_filter) state.entries
    pure (record {
      entries = wire_entries (page limit offset filtered);
      total = length filtered;
      stats = stats_from_state state;
    })

  unfoldable pub stats : Io IoError QueueStats
  unfolding stats_from_state
  stats = do acquire_queue_lock w; state ← load_or_default w; pure (stats_from_state state)

  earlier : Option ℕ → Option ℕ → Option ℕ
  earlier none o = o
  earlier (some a) none = some a
  earlier (some a) (some b) = some (min a b)

  -- The `run_at` of a waiting entry, if it is in the future.
  unfoldable pub future_run_at : DispatchQueueEntry → Option ℕ
  future_run_at entry =
      if status_eq entry.status pending
      then elim (parsed_run_at x entry) [
        | none ↦ none
        | some run_at ↦ if ltb w.now run_at then some run_at else none
      ]
      else none

  unfoldable pub earliest : List DispatchQueueEntry → Option ℕ
  unfolding earlier future_run_at
  earliest [] = none
  earliest (entry ∷ entries) = earlier (future_run_at entry) (earliest entries)

  commit_swept : DispatchQueueState → List HistoryRecord → Io IoError (Unit {0})
  commit_swept state [] = pure tt
  commit_swept state (r ∷ rs) = commit x w state (r ∷ rs)

  unfoldable pub next_deadline : Io IoError (Option String)
  unfolding earliest commit_swept
  next_deadline = do
    acquire_queue_lock w
    loaded ← load_or_default w
    let swept = sweep_expired_entries x w.now loaded
    commit_swept swept.0 swept.1
    pure (Option.map x.to_rfc3339 (earliest swept.0.entries))
