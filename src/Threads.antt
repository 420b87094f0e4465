-- ===== src/Threads.antt =====
-- The threads domain (internal/threads).
pub mod Record
pub mod Rank
pub mod Turns
pub mod State
pub mod Metadata
pub mod Observe
pub mod Holders
pub mod Sessions
pub mod Leaving
pub mod External
pub mod Requests
pub mod Projects
pub mod Opening
pub mod Keeps
pub mod SameId
pub mod Methods
pub mod Calls
pub mod Blind
pub mod Active
pub mod Backed
pub mod Consistency
pub mod Reads
pub mod Resuming
pub mod Loading
pub mod Deletion
pub mod Evidence
pub mod Columns
