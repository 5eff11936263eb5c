-- ===== src/Examples/Facts.antt =====
-- What holds of the queue of Examples, and the worlds of later calls.
use animus_queue_default.Common.{
  is_whitespace, true, ◌≡◌, trim, refl, false, some, List, [], ◌∷◌, arith,
}
use animus_queue_default.Protocol.{QueueLeaseFence, ExecutionFence}
use animus_queue_default.State.Entry.{is_ticketed}
use animus_queue_default.External.{World}
use animus_queue_default.Store.Loading.{IsSound, ReadsAs}
use animus_queue_default.State.Entry.{lease_is_live}
use animus_queue_default.History.{is_blank_line, is_ascii_whitespace}
use animus_queue_default.History.Recovery.{IsReadable}
use animus_queue_default.Fenced.Ticket.{exact_fence_matches, fence_parts_match, same_repository}
use animus_queue_default.Fenced.Mutation.Fencing.{Recovers}
use animus_queue_default.External.{tears}
use animus_queue_default.Calls.{Call, leases_v2, drops}
use animus_queue_default.Fenced.Ticket.{is_running_on}
use animus_queue_default.Branches.Changes.{Exclusive}
use animus_queue_default.Examples.{
  main_branch, running_entry, done_record, x0, w0, three_state, three_disk, lease_request,
}

pub three_state-Exclusive : Exclusive x0 three_state
unfolding is_running_on is_ticketed
three_state-Exclusive = record {
  ticketed_only = ((λ e. e), ((λ e. refl), ((λ e. refl), tt)));
  exclusive = λ key. ground arith;
}

abbrev pub two_calls : List (World × Call)
two_calls = (w0, leases_v2 lease_request) ∷ (w0, drops "running") ∷ []

-- The third byte of an append does not reach the file.
abbrev pub w_torn : World
w_torn = record w0 { append = tears 2 }

abbrev pub w_early : World
w_early = record w0 { now = 500 }

abbrev pub w_later : World
w_later = record w0 { now = 2000 }

abbrev pub running_lease : QueueLeaseFence
running_lease = record {
  entry_id = "running";
  owner_id = "daemon";
  generation = 7;
  expires_at = 900;
}

abbrev pub running_fence : ExecutionFence
running_fence = record {
  schema = "fence";
  version = 1;
  workflow_id = "w1";
  workflow_generation = 1;
  subject = some (record { qualified_id = "task:T2"; generation = 4 });
  queue_lease = some running_lease;
  repository = some main_branch;
}

abbrev pub old_lease : QueueLeaseFence
old_lease = record running_lease { generation = 6 }

abbrev pub old_fence : ExecutionFence
old_fence = record running_fence { queue_lease = some old_lease }

pub w0-IsSound : IsSound w0
w0-IsSound = record {
  locks = refl;
  reads = refl;
  migrates = refl;
  appending = refl;
  saving = refl;
  reads_history = refl;
}

early-IsSound : IsSound w_early
early-IsSound = record {
  locks = refl;
  reads = refl;
  migrates = refl;
  appending = refl;
  saving = refl;
  reads_history = refl;
}

pub later-IsSound : IsSound w_later
later-IsSound = record {
  locks = refl;
  reads = refl;
  migrates = refl;
  appending = refl;
  saving = refl;
  reads_history = refl;
}

pub three-ReadsAs : ReadsAs w0 three_disk three_state
unfolding trim is_whitespace
three-ReadsAs = record {
  sound = w0-IsSound;
  held = refl;
  current = omega arith;
  has_ids = (refl, (refl, (refl, tt)));
}

pub early-ReadsAs : ReadsAs w_early three_disk three_state
early-ReadsAs = record {
  sound = early-IsSound;
  held = refl;
  current = omega arith;
  has_ids = three-ReadsAs.has_ids;
}

pub running-matches : exact_fence_matches x0 running_entry running_fence ≡ true
unfolding exact_fence_matches fence_parts_match same_repository
running-matches = refl

pub old-matches_not : exact_fence_matches x0 running_entry old_fence ≡ false
unfolding exact_fence_matches fence_parts_match same_repository
old-matches_not = refl

pub running-Recovers : Recovers x0 w0 "daemon2" running_entry
unfolding lease_is_live
running-Recovers = record { runs = refl; names_owner = refl; other_owner = refl; expired = refl }

pub done-IsReadable : IsReadable x0 done_record
unfolding is_blank_line is_ascii_whitespace
done-IsReadable = record { one_line = (refl, (refl, tt)); not_blank = refl; read_back = refl }
