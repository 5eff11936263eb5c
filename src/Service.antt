-- ===== src/Service.antt =====
-- src/queue_service.rs, in the modules below: what its calls share, and its calls by kind.
pub mod Base
pub mod Stored
pub mod Durability
pub mod Sweep
pub mod Mutations
pub mod Enqueue
pub mod Lease
pub mod Listing
pub mod Reorder
