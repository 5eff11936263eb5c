-- ===== src/Protocol.antt =====
-- The types of the Animus protocol crates that src/ builds and reads (their sources are not part of
-- the repository): a field for each field or accessor that the queue uses. Instants
-- (`DateTime<Utc>`) are numbers of nanoseconds since the earliest instant that `chrono` can hold.
use animus_queue_default.Common.{ℕ, String, Option, Bool, List}

pub record SubjectRef : Type 0 where
  pub kind : String
  pub id : String

-- `subject` and `subject_id` are the accessors of that name; `envelope` is all that the queue
-- passes on without looking at it.
pub record SubjectDispatch : Type 0 where
  pub subject : Option SubjectRef
  pub subject_id : Option String
  pub workflow_ref : String
  pub requested_at : String
  pub envelope : String

pub record RepositoryReservation : Type 0 where
  pub repository : String
  pub base_ref : String
  pub head_ref : String

pub record SubjectGeneration : Type 0 where
  pub qualified_id : String
  pub generation : ℕ

pub record QueueLeaseFence : Type 0 where
  pub entry_id : String
  pub owner_id : String
  pub generation : ℕ
  pub expires_at : ℕ

pub record ExecutionFence : Type 0 where
  pub schema : String
  pub version : ℕ
  pub workflow_id : String
  pub workflow_generation : ℕ
  pub subject : Option SubjectGeneration
  pub queue_lease : Option QueueLeaseFence
  pub repository : Option RepositoryReservation

pub record QueueEntry : Type 0 where
  pub entry_id : String
  pub subject_id : String
  pub task_id : Option String
  pub subject_dispatch : SubjectDispatch
  pub status : String
  pub workflow_id : Option String
  pub enqueued_at : String
  pub assigned_at : Option String
  pub held_at : Option String
  pub run_at : Option String
  pub expire_after_secs : Option ℕ

pub record QueueStats : Type 0 where
  pub total : ℕ
  pub pending : ℕ
  pub assigned : ℕ
  pub held : ℕ
  pub deferred : ℕ

pub record QueueMutationResponse : Type 0 where
  pub changed : Bool
  pub not_found : Bool

pub record QueueEnqueueV2Request : Type 0 where
  pub subject_dispatch : SubjectDispatch
  pub idempotency_key : Option String
  pub repository : Option RepositoryReservation
  pub run_at : Option String
  pub expire_after_secs : Option ℕ

pub record QueueEnqueueV2Response : Type 0 where
  pub enqueued : Bool
  pub entry_id : String
  pub subject : SubjectGeneration
  pub warning : Option String

pub record QueueLeaseV2Request : Type 0 where
  pub max : ℕ
  pub owner_id : String
  pub workflow_ids : List String
  pub exclude : List ExecutionFence

pub data QueueLeaseBlockReason : Type 0 where
  missing_execution_identity : QueueLeaseBlockReason
  subject_generation_active : QueueLeaseBlockReason
  repository_ref_collision : QueueLeaseBlockReason

pub record QueueLeaseBlock : Type 0 where
  pub entry_id : String
  pub reason : QueueLeaseBlockReason
  pub conflicts_with : Option ExecutionFence

pub record FencedQueueEntry : Type 0 where
  pub entry : QueueEntry
  pub execution : ExecutionFence

pub record QueueLeaseV2Response : Type 0 where
  pub leased : List FencedQueueEntry
  pub blocked : List QueueLeaseBlock

pub record QueueLeaseRenewRequest : Type 0 where
  pub execution : ExecutionFence
  pub ttl_secs : Option ℕ

pub record QueueLeaseRecoverRequest : Type 0 where
  pub execution : ExecutionFence
  pub new_owner_id : String
  pub ttl_secs : Option ℕ

pub record QueueCompletionV2Request : Type 0 where
  pub execution : ExecutionFence
  pub status : String

pub record QueueReleasePendingV2Request : Type 0 where
  pub execution : ExecutionFence
  pub reason : String

pub data QueueLeaseMutationOutcome : Type 0 where
  applied already_applied not_assigned not_found stale_fence lease_still_live :
      QueueLeaseMutationOutcome

pub record QueueLeaseMutationResponse : Type 0 where
  pub outcome : QueueLeaseMutationOutcome
  pub execution : Option ExecutionFence
  pub reason : Option String
