-- ===== src/Transport.antt =====
-- internal/transport/httpapi/handler.go: the HTTP interface over the services.
pub mod Requests
pub mod Parameters
pub mod Routes
pub mod Respond
pub mod Handlers
pub mod Api
mod Reads
mod Effects
mod Dispatch
pub mod Authority
pub mod Histories
pub mod FourEyes
mod Atomic
mod Harmless
pub mod Refusals
pub mod Safe
pub mod Missing
pub mod Replays
pub mod Urls
