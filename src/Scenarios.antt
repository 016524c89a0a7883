-- ===== src/Scenarios.antt =====
-- Tests of the modules on small inputs, and uses of their theorems there.
pub mod Profile
pub mod Document
pub mod Graphs
pub mod Common
pub mod Claims
pub mod Delivery
pub mod Jobs
pub mod Rounds
pub mod Leases
pub mod Reports
pub mod Retries
pub mod Resumes
pub mod Answers
pub mod Proposals
