-- ===== src/Application.antt =====
-- internal/application: the services. Each takes the operations of its repository as a record over
-- the state `S` of that repository, as the source takes an interface.
pub mod Env
pub mod Onboarding
pub mod Transactions
pub mod Cases
pub mod DueDiligence
pub mod Screening
pub mod Worker
pub mod Delivery
pub mod Queries
