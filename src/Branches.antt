-- ===== src/Branches.antt =====
-- Branches in use, over all the calls: src/fenced_queue.rs hands out an entry only if nothing runs
-- on its branch, and the calls of src/queue_service.rs must not undo that.
pub mod Counting
pub mod Changes
pub mod OldStyle
pub mod Chosen
pub mod Plain
pub mod Ticketed
pub mod Invariant
