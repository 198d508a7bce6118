-- ===== src/Mgr.antt =====
-- The requests that wait for an answer: common/src/diaMgr.c and the senders of diaCx/src.
pub mod Table
pub mod Pending
pub mod Senders
pub mod Start
pub mod Once
pub mod Sent
pub mod Paired
pub mod Kept
pub mod Steps
mod Tests
pub mod Unanswered
pub mod Spec
pub mod Refined
pub mod Refines
pub mod Refs
pub mod Counted
mod SentTests
