-- ===== src/Queue.antt =====
-- queue.py: the Valkey lists of the worker queue, and `ValkeyJobQueue` over them.
pub mod Store
pub mod Delivery
pub mod Conserve
pub mod NoLoss
pub mod Recovery
pub mod Order
pub mod Attempts
