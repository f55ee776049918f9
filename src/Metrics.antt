-- ===== src/Metrics.antt =====
-- server/src/metrics/client_metrics.rs and server/src/http/background_send_metrics.rs: counting the use
-- of features until the counts are sent upstream.
pub mod Data
pub mod Cache
pub mod Batches
pub mod Cutting
pub mod Totals
pub mod Indexed
pub mod Removal
pub mod Reinsert
pub mod Sender
pub mod Backoff
pub mod Groups
pub mod Distinct
pub mod Round
pub mod Conserved
pub mod Variants
