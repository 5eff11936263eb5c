-- ===== src/Fenced.antt =====
-- src/fenced_queue.rs, in the modules below: tickets and generations, and the ticketed calls.
pub mod Generation
pub mod Ticket
pub mod Request
pub mod Enqueue
pub mod Lease
pub mod Mutation
