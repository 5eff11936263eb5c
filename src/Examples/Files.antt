-- ===== src/Examples/Files.antt =====
-- The theorems about the two files, on the queue of Examples.
use animus_queue_default.Common.{◌≡◌, [], ◌∷◌}
use animus_queue_default.History.{appended, find_in, has_entry_id}
use animus_queue_default.History.Recovery.{last_match, find_in-appended}
use animus_queue_default.Common.{◌⊎◌}
use animus_queue_default.Service.Base.{commit}
use animus_queue_default.Service.Durability.{Recorded, commit-Recorded}
use animus_queue_default.Examples.{done_record, x0, three_state, three_disk}
use animus_queue_default.Examples.Facts.{w_torn, done-IsReadable}

commit-Recorded_example :
    let d' = (commit x0 w_torn three_state (done_record ∷ []) three_disk).0 in
    (d'.queue_json ≡ three_disk.queue_json) ⊎ Recorded x0 (done_record ∷ []) three_disk d'
commit-Recorded_example =
    commit-Recorded x0 w_torn three_state (done_record ∷ []) three_disk (done-IsReadable, tt)

-- The history ends in a torn line.
find_in-appended_example :
    find_in x0 (has_entry_id x0 "running") (91 ∷ appended x0 (91 ∷ []) (done_record ∷ []))
    ≡ last_match x0
        (has_entry_id x0 "running")
        (find_in x0 (has_entry_id x0 "running") (91 ∷ []))
        (done_record ∷ [])
find_in-appended_example =
    find_in-appended x0 (has_entry_id x0 "running") (91 ∷ []) (done_record ∷ [])
      (done-IsReadable, tt)
