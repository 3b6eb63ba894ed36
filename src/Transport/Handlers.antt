-- ===== src/Transport/Handlers.antt =====
-- internal/transport/httpapi/handler.go: the handlers of the services' methods.
pub mod Customers
pub mod Transactions
pub mod Cases
pub mod DueDiligence
pub mod Screening
