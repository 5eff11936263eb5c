-- ===== src/Lib.antt =====
-- The queue plugin animus-queue-default: a file-backed task queue that hands out entries under
-- leases with generation fences ("tickets").
--
-- The program and the files here (paths from the repository's root):
--   src/dispatch_queue_state.rs: State (types, defaults), State/Entry (functions on one entry),
--     State/Written (the JSON that the serde attributes make)
--   src/dispatch_queue_store.rs: Io (the disk, calls that fail), Store (lock, load, save),
--     Store/Text (what the JSON in the file is read as)
--   src/queue_history.rs: History/Record (a line), History (the file, byte for byte)
--   src/identity.rs: Identity
--   src/queue_service.rs: Service/Base (errors, commit, sweep), Enqueue, Listing, Lease,
--     Mutations (hold, release, mark_assigned, drop, completion, release_pending), Reorder
--   src/fenced_queue.rs: Fenced/Generation, Ticket (fences, branches in use), Request (the checks
--     of an add), Enqueue, Lease, Mutation (renew, recover, completion, release_pending)
--   src/lease_ttl.rs: LeaseTtl; src/host_guard.rs: HostGuard
--   src/request_hash.rs: RequestHash, on the JSON values of Json
--   src/plugin.rs: Plugin/Frames (requests out of stdin), Requests (the dispatch, the manifest),
--     Initialize, Plain and Tickets (the handlers of queue/* and queue/v2/*), Base (what they
--     share), Wire (what serde_json reads and writes); Calls has the calls of the queue that the
--     methods make, and Plugin/Meaning what a request asks for, apart from the handlers
-- Protocol has the types of the protocol crates, External the functions of other crates and what
-- the operating system answers in one call (World). A function of the source has its name here; a
-- handler is a call `Io E A = Disk → Disk × Result E A`. The steps of a long handler are functions
-- of their own, in the order of the source, and a loop is recursion on the list that it runs over;
-- only the reader of requests has fuel (below). Proofs about a file stand in the modules below it;
-- Branches has the invariant over all the calls, Examples a small queue on which the theorems are
-- tried.
--
-- How the program is read:
--   - Calls are serialised by the lock file, so a run is a list of calls, each with its World. A
--     failure ends the call where the source's `?` does; what was written until then stays.
--   - One call reads the clock once; the source may read it again a moment later in the same call.
--     Instants are numbers of nanoseconds, lengths numbers of seconds.
--   - The disk has `queue.json` as what a load reads from it: blank, a state, a bare list of
--     entries, or neither; Store/Text reads these from the JSON. A save replaces the file, keeps
--     the old one, or replaces it without the flush of the directory. The temporary file is left
--     out.
--   - The history is bytes; an append reaches the file whole, not at all, or up to any byte.
--   - A `u64` counter wraps at 2 ^ 64, as in a release build. `expect` on what `validate` has
--     checked is an error value.
--   - `subject_generations` is a list of pairs with each key once, in no particular order.
--   - Log lines are left out.
--   - A request is handled as a whole: tasks are taken in the order in which they run. A session
--     has the bound backend and the disk below each project root; a path leads to one directory.
--   - The inner loop of the reader has fuel: each turn that goes on takes a byte at least, so one
--     turn more than there are bytes is enough.
--   - sha256, and the text that serde_json prints for null, a truth value, a number and a string,
--     are parameters (`json_text`); `RequestHash.Canonical.Decoded.PrintsScalars` says of those texts
--     that they can be told apart.
-- "On a disk that works" below is `Store.Loading.ReadsAs`: nothing fails in the call, and
-- `queue.json` holds a state of a version that this build reads, with an id for each entry.
-- Not modelled: the serde attributes of history lines and requests and the text of JSON (readers
-- and writers are parameters), structs spelled as JSON lists (which serde also reads), writing to
-- stdout and the async runtime of src/plugin.rs, the reading of the environment in
-- src/lease_ttl.rs.
pub mod Branches
pub mod Calls
pub mod Common
pub mod Examples
pub mod External
pub mod Fenced
pub mod History
pub mod HostGuard
pub mod Identity
pub mod Io
pub mod Json
pub mod LeaseTtl
pub mod Plugin
pub mod Protocol
pub mod RequestHash
pub mod Rpc
pub mod Service
pub mod State
pub mod Store
