-- ===== src/Legacy.antt =====
-- graph.py: the runner of the legacy graph and the resuming of its approval.
pub mod Delivery
pub mod Approved
pub mod Ids
pub mod Moved
pub mod Resumed
