-- ===== src/External.antt =====
-- What the queue calls and src/ does not hold: `chrono`, the protocol crates, `serde_json`, `sha2`
-- and `uuid`, and what the operating system answers during one call.
use animus_queue_default.Common.{ℕ, String, Option, Bool, List}
use animus_queue_default.Protocol.{
  RepositoryReservation, QueueEnqueueV2Request, QueueLeaseV2Request, QueueLeaseRenewRequest,
  QueueLeaseRecoverRequest, QueueCompletionV2Request, QueueReleasePendingV2Request, SubjectDispatch,
}
use animus_queue_default.History.Record.{HistoryRecord}
use animus_queue_default.Json.{Value}

pub record External : Type 0 where
  -- chrono
  pub parse_from_rfc3339 : String → Option ℕ
  -- the text of the error, where a time cannot be read
  pub rfc3339_error : String → String
  pub to_rfc3339 : ℕ → String
  -- `at + Duration::seconds(secs)`
  pub add_seconds : ℕ → ℕ → ℕ
  -- `TimeDelta::try_seconds`, for a number that fits in an `i64`
  pub try_seconds : ℕ → Option ℕ
  pub checked_add_signed : ℕ → ℕ → Option ℕ
  -- the protocol crates
  pub collision_key : RepositoryReservation → String
  pub execution_fence_schema_id : String
  pub execution_fence_version : ℕ
  -- `request.validate()`: the error's text, or `none`
  pub validate_enqueue : QueueEnqueueV2Request → Option String
  pub validate_lease : QueueLeaseV2Request → Option String
  pub validate_renew : QueueLeaseRenewRequest → Option String
  pub validate_recover : QueueLeaseRecoverRequest → Option String
  pub validate_completion : QueueCompletionV2Request → Option String
  pub validate_release_pending : QueueReleasePendingV2Request → Option String
  -- `str::to_lowercase`, by the Unicode tables
  pub to_lowercase : String → String
  -- serde_json: the bytes of a history line, and what is read from one
  pub encode_record : HistoryRecord → List ℕ
  pub decode_record : List ℕ → Option HistoryRecord
  -- serde_json: `value.to_string()`, and `to_value`
  pub json_text : Value → String
  pub dispatch_value : SubjectDispatch → Value
  pub reservation_value : RepositoryReservation → Value
  -- sha2: the digest of a text, as lowercase hexadecimals
  pub sha256_hex : String → String

-- How much of an append reaches the file: all of it, nothing, or so many bytes before an error.
pub data AppendResult : Type 0 where
  appends refuses : AppendResult
  tears : ℕ → AppendResult

-- What becomes of `queue.json` in a save: it is replaced; the old file stays, with an error; or it
-- is replaced and the flush of the directory fails.
pub data SaveResult : Type 0 where
  saves keeps_old replaces_unflushed : SaveResult

-- What one call meets. The clock is read as one instant, and `uuid` gives the fresh ids of the
-- call in order, `migration_uuid` those of the migration of a file without ids.
pub record World : Type 0 where
  pub now : ℕ
  pub uuid : ℕ → String
  pub migration_uuid : ℕ → String
  pub lock_fails : Bool
  pub read_fails : Bool
  pub migration : SaveResult
  pub append : AppendResult
  pub save : SaveResult
  pub history_read_fails : Bool
