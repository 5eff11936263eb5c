-- ===== src/History/Record.antt =====
-- The finished-entry records of src/queue_history.rs.
use animus_queue_default.Common.{ℕ, String, Option, none, some, [], ◌==◌, if◌then◌else◌}
use animus_queue_default.State.{DispatchQueueEntry}

pub data HistoryOutcome : Type 0 where
  completed failed cancelled dropped : HistoryOutcome

-- The statuses are the wire words of `animus_queue_protocol::completion_status`.
unfoldable pub from_completion_status : String → Option HistoryOutcome
from_completion_status status =
    if status == "completed"
    then some completed
    else if status == "failed"
    then some failed
    else if status == "cancelled"
    then some cancelled
    else none

unfoldable pub state_word : HistoryOutcome → String
state_word dropped = "dropped"
state_word completed = "done"
state_word failed = "done"
state_word cancelled = "done"

pub record HistoryRecord : Type 0 where
  pub outcome : HistoryOutcome
  pub finished_at : ℕ
  pub finished_by : String
  pub reason : Option String
  pub entry : DispatchQueueEntry

-- `HistoryRecord::finished`, at the instant `now`: the dispatch and the audit log are left out.
unfoldable pub finished :
    ℕ → DispatchQueueEntry → HistoryOutcome → String → Option String → HistoryRecord
finished now entry outcome finished_by reason = record {
  outcome = outcome;
  finished_at = now;
  finished_by = finished_by;
  reason = reason;
  entry = record entry { dispatch = none; audit_log = [] };
}
