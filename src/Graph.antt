-- ===== src/Graph.antt =====
-- src/graph.rs: the memory graph.
pub mod State
pub mod Cascade
pub mod Resolve
pub mod Upsert
pub mod Ends
pub mod Reads
pub mod Spread
pub mod Indexed
pub mod Writes
pub mod Replace
pub mod Kept
pub mod Operations
pub mod Reach
pub mod Grounding
pub mod Superseded
pub mod Queries
pub mod Audit
mod Examples
