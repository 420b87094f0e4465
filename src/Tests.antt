-- ===== src/Tests.antt =====
-- The theorems at concrete inputs: a small service, its history, and the evidence of one thread.
mod Samples
mod Histories
mod Records
mod Streams
mod Projects
mod Opens
mod Inbox
mod Terminals
mod Rows
mod Sessions
mod Claims
mod Letters
mod Scopes
