-- ===== src/Retry.antt =====
-- app/retry: what an error means, and how far the retries go.
pub mod Throttle
pub mod Info
pub mod Classifier
pub mod Matrix
pub mod Actions
pub mod Backoff
pub mod Delays
pub mod Policy
