-- ===== src/Examples/Hashes.antt =====
-- Examples for src/request_hash.rs: an add that is tried again a minute later, and one of other
-- content with the same key.
use animus_queue_default.Common.{
  ◌≡◌, refl, true, false, none, some, ok, err, trim, is_whitespace, arith, eq_iff,
}
use animus_queue_default.Json.{Value, null, string, array, object, nil, cons, field, end}
use animus_queue_default.Protocol.{QueueEnqueueV2Request}
use animus_queue_default.State.Entry.{expiry_deadline, parsed_run_at, bound_request_hash}
use animus_queue_default.Identity.{dispatch_canonical_id, canonical_subject_id}
use animus_queue_default.History.{find_history_by_idempotency_key, find_last}
use animus_queue_default.RequestHash.{canonical_json, enqueue_request_hash}
use animus_queue_default.RequestHash.Canonical.{
  arrays, objects, no_items, item, swap, canonical_json-SameValue,
}
use animus_queue_default.RequestHash.Content.{StampsField}
use animus_queue_default.Service.Base.{
  invalid_params, is_expired, sweep_entries, sweep_expired_entries,
}
use animus_queue_default.Fenced.Generation.{
  next_subject_generation, live_entry_for_subject, highest_ticketed, is_ticketed_for,
  is_waiting_for,
}
use animus_queue_default.Fenced.Request.{Enqueued, read_request}
use animus_queue_default.Fenced.Request.Attempts.{tried_at}
use animus_queue_default.Fenced.Enqueue.{receipt, has_key, new_entry, enqueue_v2}
use animus_queue_default.Fenced.Enqueue.Idempotency.{subject_at, added_disk}
use animus_queue_default.Fenced.Enqueue.Retried.{enqueue_v2-tried_at}
use animus_queue_default.Fenced.Request.Content.{IsSameContent}
use animus_queue_default.Fenced.Enqueue.Rebound.{enqueue_v2-rebound}
use animus_queue_default.Examples.Printing.{printing, printing-PrintsScalars}
use animus_queue_default.Examples.{x0, w0, task_dispatch}
use animus_queue_default.Examples.Facts.{w_later, later-IsSound}
use animus_queue_default.Examples.Small.{one_state, one_disk, one-ReadsAs}

abbrev one_order : Value
one_order = array (cons (object (field "b" null (field "a" (string "x") end))) nil)

abbrev other_order : Value
other_order = array (cons (object (field "a" (string "x") (field "b" null end))) nil)

canonical_json-SameValue_example : canonical_json x0 one_order ≡ canonical_json x0 other_order
canonical_json-SameValue_example =
    canonical_json-SameValue x0 one_order other_order
      (arrays (item (objects (swap (λ e. ground (arith, (eq_iff "b" "a").1 e)))) no_items))

abbrev key_request : QueueEnqueueV2Request
key_request = record {
  subject_dispatch = task_dispatch;
  idempotency_key = some "key";
  repository = none;
  run_at = none;
  expire_after_secs = none;
}

abbrev key_enqueued : Enqueued
key_enqueued = record {
  dispatch = task_dispatch;
  qualified_id = "task:T1";
  idempotency_key = some "key";
  repository = none;
  run_at = none;
  expire_after_secs = none;
  request_hash = enqueue_request_hash x0 task_dispatch none none none;
}

x0-StampsField : StampsField x0
x0-StampsField at dispatch = refl

enqueue_v2-tried_at_example :
    let g = (next_subject_generation one_state "task:T1").1 in
    let d' = added_disk x0 w0 key_enqueued one_disk one_state in
    let subject = subject_at "task:T1" g in
    (enqueue_v2 x0 w0 key_request one_disk ≡ (d', ok (receipt true "fresh" subject none)))
    × (enqueue_v2 x0 w_later (tried_at "later" key_request) d'
        ≡ (d', ok (receipt false "fresh" subject none)))
unfolding find_history_by_idempotency_key find_last trim is_whitespace sweep_expired_entries
    sweep_entries is_expired expiry_deadline parsed_run_at has_key bound_request_hash
    live_entry_for_subject highest_ticketed is_ticketed_for is_waiting_for new_entry
    next_subject_generation read_request dispatch_canonical_id canonical_subject_id
enqueue_v2-tried_at_example =
    enqueue_v2-tried_at x0 x0-StampsField w0 w_later one_disk one_state one-ReadsAs later-IsSound
      refl "later" key_request key_enqueued refl refl "key" refl refl refl refl refl refl

abbrev first_enqueued : Enqueued
first_enqueued = record key_enqueued {
  request_hash = enqueue_request_hash printing task_dispatch none none none;
}

abbrev minute_request : QueueEnqueueV2Request
minute_request = record key_request { expire_after_secs = some 60 }

abbrev minute_enqueued : Enqueued
minute_enqueued = record key_enqueued {
  expire_after_secs = some 60;
  request_hash = enqueue_request_hash printing task_dispatch none none (some 60);
}

none-some : ¬ IsSameContent printing first_enqueued minute_enqueued
none-some same = ground (arith, same.3)

enqueue_v2-rebound_example :
    let g = (next_subject_generation one_state "task:T1").1 in
    let d' = added_disk printing w0 first_enqueued one_disk one_state in
    let subject = subject_at "task:T1" g in
    (enqueue_v2 printing w0 key_request one_disk ≡ (d', ok (receipt true "fresh" subject none)))
    × (enqueue_v2 printing w_later minute_request d' ≡ (
      d',
      err (invalid_params "idempotency_key is already bound to a different queue request"),
    ))
unfolding find_history_by_idempotency_key find_last trim is_whitespace sweep_expired_entries
    sweep_entries is_expired expiry_deadline parsed_run_at has_key bound_request_hash
    live_entry_for_subject highest_ticketed is_ticketed_for is_waiting_for new_entry
    next_subject_generation read_request dispatch_canonical_id canonical_subject_id
enqueue_v2-rebound_example =
    enqueue_v2-rebound printing printing-PrintsScalars w0 w_later one_disk one_state one-ReadsAs
      later-IsSound refl key_request minute_request first_enqueued minute_enqueued refl refl "key"
      refl refl (λ e. e) none-some refl refl refl refl refl
