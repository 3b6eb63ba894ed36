-- ===== src/Tests.antt =====
-- Tests of the model on concrete data, and the theorems applied to it.
pub mod Fixtures
pub mod Domain
pub mod Histories
pub mod Workers
pub mod Paging
pub mod Providers
pub mod Auth
pub mod Transport
pub mod FourEyes
pub mod Missing
pub mod Security
pub mod Senders
pub mod Metrics
pub mod Similarity
