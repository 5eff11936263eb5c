-- ===== src/Examples/Small.antt =====
-- A queue with one entry, and adds to it.
use animus_queue_default.Common.{is_whitespace, trim, ◌+◌, ◌*◌, refl, none, some, [], ◌∷◌, arith}
use animus_queue_default.State.{DispatchQueueEntry, DispatchQueueState, default_state}
use animus_queue_default.Io.{Disk, full}
use animus_queue_default.Store.Loading.{ReadsAs}
use animus_queue_default.Common.{ℕ, ◌==◌, leb, if◌then◌else◌}
use animus_queue_default.Fenced.Request.{Enqueued}
use animus_queue_default.Fenced.Enqueue.{new_entry}
use animus_queue_default.HostGuard.{Semver}
use animus_queue_default.Examples.{task_dispatch, running_entry, x0, w0}
use animus_queue_default.Examples.Facts.{w0-IsSound}

-- A version by its first two numbers, as one number.
abbrev pub s0 : Semver
s0 = record {
  Version = ℕ;
  parse = λ text.
      if text == "1.1.0"
      then some 101
      else if text == "1.2.0"
      then some 102
      else if text == "0.7.0"
      then some 7
      else none;
  new = λ major minor patch. major * 100 + minor;
  with_pre = λ pre version. version;
  at_least = λ v w. leb w v;
  to_string = λ version. "version";
}

abbrev pub new_request : Enqueued
new_request = record {
  dispatch = task_dispatch;
  qualified_id = "task:T9";
  idempotency_key = some "key";
  repository = none;
  run_at = none;
  expire_after_secs = none;
  request_hash = "hash";
}

abbrev pub task_request : Enqueued
task_request = record new_request { qualified_id = "task:T2" }

abbrev pub one_state : DispatchQueueState
one_state = record default_state { format_version = 2; entries = running_entry ∷ [] }

abbrev pub one_disk : Disk
one_disk = record { queue_json = some (full one_state); history = none }

pub one-ReadsAs : ReadsAs w0 one_disk one_state
unfolding trim is_whitespace
one-ReadsAs = record {
  sound = w0-IsSound;
  held = refl;
  current = omega arith;
  has_ids = (refl, tt);
}

abbrev pub bound_entry : DispatchQueueEntry
bound_entry = new_entry x0 w0 new_request 1

abbrev pub bound_state : DispatchQueueState
bound_state = record default_state { format_version = 2; entries = bound_entry ∷ [] }

abbrev pub bound_disk : Disk
bound_disk = record { queue_json = some (full bound_state); history = none }

pub bound-ReadsAs : ReadsAs w0 bound_disk bound_state
unfolding trim is_whitespace new_entry
bound-ReadsAs = record {
  sound = w0-IsSound;
  held = refl;
  current = omega arith;
  has_ids = (refl, tt);
}
