-- ===== src/Terminals.antt =====
-- internal/terminals: the terminals' records, their honest status, and the spaces they belong to. The
-- session backend and the monitor's reports are outside; a pass of reconciliation runs in three
-- phases, and other calls may come between them.
pub mod State
pub mod Reconcile
pub mod Requests
pub mod Create
pub mod Waiting
pub mod Judgement
pub mod Durable
pub mod Histories
pub mod Reaping
pub mod Spaces
pub mod Closed
pub mod Closing
