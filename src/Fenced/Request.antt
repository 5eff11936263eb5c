-- ===== src/Fenced/Request.antt =====
-- What `queue/v2/enqueue` of src/fenced_queue.rs checks and trims before it takes the lock.
pub mod Attempts
pub mod Content
use mathlib.Core.Option
use animus_queue_default.Common.{
  ℕ, String, Bool, true, false, Option, none, some, ltb, trim, chars_count, and_then, is_some,
  is_some_and, if◌then◌else◌, ◌<>◌, show_nat, Result, ok, err,
}
use animus_queue_default.Protocol.{SubjectDispatch, RepositoryReservation, QueueEnqueueV2Request}
use animus_queue_default.State.Entry.{to_i64}
use animus_queue_default.External.{External}
use animus_queue_default.RequestHash.{enqueue_request_hash}
use animus_queue_default.Identity.{dispatch_canonical_id}
use animus_queue_default.Service.Base.{QueueCallError, invalid_params}

infixl 5 ◌>>=◌ ◌>>◌
abbrev ◌>>=◌ :
    {A B : Type 0}
    → Result QueueCallError A
    → (A → Result QueueCallError B)
    → Result QueueCallError B
ok a >>= f = f a
err e >>= f = err e

abbrev ◌>>◌ :
    {B : Type 0}
    → Result QueueCallError (Unit {0})
    → Result QueueCallError B
    → Result QueueCallError B
m >> k = m >>= λ _. k

abbrev pub max_idempotency_key_chars : ℕ
max_idempotency_key_chars = 256

-- What the validated request asks for.
pub record Enqueued : Type 0 where
  pub dispatch : SubjectDispatch
  pub qualified_id : String
  pub idempotency_key : Option String
  pub repository : Option RepositoryReservation
  pub run_at : Option String
  pub expire_after_secs : Option ℕ
  pub request_hash : String

trimmed_reservation : RepositoryReservation → RepositoryReservation
unfolding trim
trimmed_reservation reservation = record {
  repository = trim reservation.repository;
  base_ref = trim reservation.base_ref;
  head_ref = trim reservation.head_ref;
}

-- The error that `validate` reports, if it reports one.
check_valid : Option String → Result QueueCallError (Unit {0})
check_valid none = ok tt
check_valid (some message) = err (invalid_params message)

check_key : Option String → Result QueueCallError (Unit {0})
check_key key =
    if is_some_and (λ k. ltb max_idempotency_key_chars (chars_count k)) key
    then err (invalid_params "idempotency_key must be a non-empty string of at most 256 characters")
    else ok tt

module _ (x : External) where
  check_run_at : Option String → Result QueueCallError (Option ℕ)
  check_run_at none = ok none
  check_run_at (some raw) = elim (x.parse_from_rfc3339 raw) [
    | none ↦
        err (invalid_params ("run_at must be RFC 3339 (" <> raw <> "): " <> x.rfc3339_error raw))
    | some at ↦ ok (some at)
  ]

  -- `run_at + expire_after_secs` must be a time that can be held.
  unfoldable pub window_fits : Option ℕ → Option ℕ → Bool
  window_fits none run_at = false
  window_fits (some window) none = true
  window_fits (some window) (some run_at) = is_some (x.checked_add_signed run_at window)

  check_window : Option ℕ → Option ℕ → Result QueueCallError (Unit {0})
  unfolding window_fits to_i64
  check_window none run_at = ok tt
  check_window (some secs) run_at =
      if window_fits (and_then (to_i64 secs) x.try_seconds) run_at
      then ok tt
      else err (
          invalid_params (
            "expire_after_secs "
            <> show_nat secs
            <> " is too large: run_at + expire_after_secs must be a valid time"))

  invalid_identity : Result String String → Result QueueCallError String
  invalid_identity (ok id) = ok id
  invalid_identity (err message) = err (invalid_params message)

  unfoldable pub read_request : QueueEnqueueV2Request → Result QueueCallError Enqueued
  unfolding check_valid check_run_at check_window check_key trimmed_reservation
      dispatch_canonical_id invalid_identity
  read_request request = do
    check_valid (x.validate_enqueue request)
    qualified_id ← invalid_identity (dispatch_canonical_id request.subject_dispatch)
    parsed_run_at ← check_run_at request.run_at
    check_window request.expire_after_secs parsed_run_at
    let key = Option.map trim request.idempotency_key
    check_key key
    let repository = Option.map trimmed_reservation request.repository
    ok (record {
      dispatch = request.subject_dispatch;
      qualified_id = qualified_id;
      idempotency_key = key;
      repository = repository;
      run_at = request.run_at;
      expire_after_secs = request.expire_after_secs;
      request_hash =
          enqueue_request_hash x request.subject_dispatch repository request.run_at
            request.expire_after_secs;
    })
