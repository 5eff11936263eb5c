-- ===== src/Plugin.antt =====
-- src/plugin.rs: the JSON-RPC front of the queue.
pub mod Wire
pub mod Base
pub mod Plain
pub mod Tickets
pub mod Initialize
pub mod Requests
pub mod Frames
pub mod Meaning
pub mod Sessions
pub mod Projects
pub mod Binding
pub mod Isolation
pub mod Replies
pub mod Refusals
pub mod Advertised
