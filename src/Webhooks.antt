-- ===== src/Webhooks.antt =====
-- internal/webhooks/webhooks.go and internal/store/webhooks.go: the webhook inbox. Deliveries are
-- accepted once, kept until they are processed, and retried.
pub mod Inbox
pub mod Service
pub mod Attempts
pub mod Worker
pub mod Backoff
pub mod Acceptance
pub mod History
pub mod Due
pub mod Draining
pub mod Redelivery
pub mod Processing
