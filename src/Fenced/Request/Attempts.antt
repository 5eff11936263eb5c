-- ===== src/Fenced/Request/Attempts.antt =====
-- An add of src/fenced_queue.rs that the CLI tries again: it stamps each attempt with its time.
use mathlib.Core.Option
use animus_queue_default.Common.{◌≡◌, String, ok, arith}
use animus_queue_default.Protocol.{QueueEnqueueV2Request}
use animus_queue_default.External.{External}
use animus_queue_default.Identity.{dispatch_canonical_id}
use animus_queue_default.RequestHash.Content.{
  StampsField, requested, enqueue_request_hash-requested,
}
use animus_queue_default.Fenced.Request.{
  Enqueued, read_request, check_valid, invalid_identity, check_key, check_run_at, check_window,
  trimmed_reservation,
}

-- The request at another time.
abbrev pub tried_at : String → QueueEnqueueV2Request → QueueEnqueueV2Request
tried_at at request = record request { subject_dispatch = requested at request.subject_dispatch }

abbrev pub validated_at : String → Enqueued → Enqueued
validated_at at request = record request { dispatch = requested at request.dispatch }

-- What is read of a request does not depend on the time, but for the dispatch itself.
pub read_request-tried_at :
    (x : External)
    → StampsField x
    → (at : String) (request : QueueEnqueueV2Request) (validated : Enqueued)
    → x.validate_enqueue (tried_at at request) ≡ x.validate_enqueue request
    → read_request x request ≡ ok validated
    → read_request x (tried_at at request) ≡ ok (validated_at at validated)
unfolding read_request check_valid invalid_identity check_key check_run_at check_window
    dispatch_canonical_id
read_request-tried_at x stamps at request validated v e = ground (
  arith,
  v,
  e,
  enqueue_request_hash-requested x stamps at request.subject_dispatch
      (Option.map trimmed_reservation request.repository) request.run_at request.expire_after_secs,
)
