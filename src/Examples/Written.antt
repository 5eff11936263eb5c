-- ===== src/Examples/Written.antt =====
-- The JSON of `queue.json`, for src/dispatch_queue_state.rs and src/dispatch_queue_store.rs.
use animus_queue_default.Common.{◌≡◌, refl, arith, String, Option, none, some, ok}
use animus_queue_default.Json.{Value, Items, null, string, array, nil, cons, optional_string}
use animus_queue_default.Protocol.{SubjectRef, SubjectDispatch, RepositoryReservation}
use animus_queue_default.State.{default_state, queue_format_version}
use animus_queue_default.State.Written.{Codec, read_u64, u64_value, write_items}
use animus_queue_default.State.Written.Entries.{state_value, entry_value}
use animus_queue_default.State.Written.RoundTrip.{IsFaithful}
use animus_queue_default.Store.{load_queue_state, save_queue_state}
use animus_queue_default.Store.Text.{holding, load-written}
use animus_queue_default.Examples.{w0, three_state, three_disk}
use animus_queue_default.Examples.Facts.{w_later, three-ReadsAs}

-- Dispatches and reservations as lists of their parts.
abbrev parts : Value → Items
parts (array items) = items
parts _ = nil

abbrev subject_value : Option SubjectRef → Value
subject_value none = null
subject_value (some r) = array (cons (string r.kind) (cons (string r.id) nil))

abbrev read_subject : Value → Option SubjectRef
read_subject (array (cons (string kind) (cons (string id) nil))) =
    some (record { kind = kind; id = id })
read_subject _ = none

abbrev read_optional : Value → Option String
read_optional (string s) = some s
read_optional _ = none

abbrev dispatch_items : Items → Option SubjectDispatch
dispatch_items (cons a (cons b (cons (string c) (cons (string d) (cons (string e) nil))))) =
    some (record {
      subject = read_subject a;
      subject_id = read_optional b;
      workflow_ref = c;
      requested_at = d;
      envelope = e;
    })
dispatch_items _ = none

abbrev reservation_items : Items → Option RepositoryReservation
reservation_items (cons (string a) (cons (string b) (cons (string c) nil))) =
    some (record { repository = a; base_ref = b; head_ref = c })
reservation_items _ = none

abbrev c0 : Codec
c0 = record {
  time_value = u64_value;
  read_time = read_u64;
  dispatch_value = λ d. array (
      cons (subject_value d.subject) (
        cons (optional_string d.subject_id) (
          cons (string d.workflow_ref)
            (cons (string d.requested_at) (cons (string d.envelope) nil)))));
  read_dispatch = λ v. dispatch_items (parts v);
  reservation_value = λ r.
      array (cons (string r.repository) (cons (string r.base_ref) (cons (string r.head_ref) nil)));
  read_reservation = λ v. reservation_items (parts v);
}

subject_back : (o : Option SubjectRef) → read_subject (subject_value o) ≡ o
subject_back none = refl
subject_back (some r) = refl

text_back : (o : Option String) → read_optional (optional_string o) ≡ o
text_back none = refl
text_back (some s) = refl

c0-IsFaithful : IsFaithful c0
c0-IsFaithful = record {
  time = λ t. refl;
  time_present = λ t. refl;
  dispatch = λ d. rw (subject_back d.subject, text_back d.subject_id) refl;
  dispatch_present = λ d. refl;
  reservation = λ r. refl;
  reservation_present = λ r. refl;
}

load-written_example :
    let own = holding c0 three_disk (state_value c0 three_state) in
    let bare = holding c0 three_disk (array (write_items (entry_value c0) three_state.entries)) in
    let current = record three_state { format_version = queue_format_version } in
    (load_queue_state w_later own ≡ (own, ok (some three_state)))
    × (load_queue_state w_later bare
        ≡ (bare, ok (some (record default_state { entries = three_state.entries }))))
    × (save_queue_state w0 three_state three_disk
        ≡ (holding c0 three_disk (state_value c0 current), ok tt))
load-written_example =
    load-written c0 c0-IsFaithful w0 w_later three_disk three_state refl refl three-ReadsAs.has_ids
      (omega arith)
