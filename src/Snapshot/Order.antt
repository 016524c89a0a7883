-- ===== src/Snapshot/Order.antt =====
-- `_contains_cycle` (Kahn's algorithm): the counters, and the topological order that it finds.
pub mod Counters
pub mod Kahn
pub mod Loop
pub mod Cycle
