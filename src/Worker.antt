-- ===== src/Worker.antt =====
-- service.py: `WorkerLoop`, which takes deliveries from the queue, runs their jobs and reports.
pub mod Failure
pub mod Process
pub mod Backoff
pub mod Calls
pub mod Bounds
pub mod Orderly
pub mod Passing
pub mod Acknowledge
pub mod Loop
pub mod Kept
pub mod Rounds
pub mod Heartbeat
pub mod Lease
pub mod Health
pub mod Sending
pub mod Remote
pub mod Receipt
pub mod Reported
pub mod Rejected
