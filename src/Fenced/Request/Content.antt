-- ===== src/Fenced/Request/Content.antt =====
-- What the content of an add of src/fenced_queue.rs is, and that its hash is bound to it.
use animus_queue_default.Common.{◌≡◌, sym, ◌∙◌, String, ok, arith}
use animus_queue_default.Protocol.{QueueEnqueueV2Request}
use animus_queue_default.External.{External}
use animus_queue_default.RequestHash.{unstamped, enqueue_request_hash}
use animus_queue_default.RequestHash.Canonical.Printed.{normal}
use animus_queue_default.RequestHash.Canonical.Decoded.{PrintsScalars}
use animus_queue_default.RequestHash.Content.Same.{
  reservation_json, hashed, enqueue_request_hash-content,
}
use animus_queue_default.Fenced.Request.{Enqueued, read_request}

-- The same content: the fields of the dispatch and the reservation in any order, and `requested_at`
-- left out.
abbrev pub IsSameContent : External → Enqueued → Enqueued → Type 0
IsSameContent x a b =
    (normal (unstamped (x.dispatch_value a.dispatch))
      ≡ normal (unstamped (x.dispatch_value b.dispatch)))
    × (normal (reservation_json x a.repository) ≡ normal (reservation_json x b.repository))
    × (a.run_at ≡ b.run_at)
    × (a.expire_after_secs ≡ b.expire_after_secs)

abbrev pub text_of : External → Enqueued → String
text_of x a = hashed x a.dispatch a.repository a.run_at a.expire_after_secs

-- What is read of a request carries the hash of its content.
read_request-hash :
    (x : External) (request : QueueEnqueueV2Request) (validated : Enqueued)
    → read_request x request ≡ ok validated
    → validated.request_hash
      ≡ enqueue_request_hash x validated.dispatch validated.repository validated.run_at
          validated.expire_after_secs
unfolding read_request
read_request-hash x request validated e = ground (arith, e)

-- Two requests with one hash have the same content, if the hash tells their texts apart.
pub request_hash-IsSameContent :
    (x : External)
    → PrintsScalars x
    → (request other : QueueEnqueueV2Request) (a b : Enqueued) → read_request x request ≡ ok a
    → read_request x other ≡ ok b
    → (x.sha256_hex (text_of x a) ≡ x.sha256_hex (text_of x b) → text_of x a ≡ text_of x b)
    → a.request_hash ≡ b.request_hash
    → IsSameContent x a b
request_hash-IsSameContent x prints request other a b e f no_collision same =
    enqueue_request_hash-content x prints a.dispatch b.dispatch a.repository b.repository a.run_at
      b.run_at a.expire_after_secs b.expire_after_secs no_collision
      (sym (read_request-hash x request a e) ∙ same ∙ read_request-hash x other b f)
