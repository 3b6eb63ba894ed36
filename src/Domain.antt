-- ===== src/Domain.antt =====
-- internal/domain: the data that the services and the repositories share, and the two rule engines.
-- A named string type is a data type with a constructor for each constant that the source declares;
-- `other s` stands for a text `s` that is none of them, which Go's type admits too.
-- An instant (time.Time) is the number of nanoseconds since the year 1, so `zero` is Go's zero time.
pub mod Errors
pub mod Audit
pub mod Customer
pub mod Risk
pub mod Transaction
pub mod Monitoring
pub mod Case
pub mod DueDiligence
pub mod Screening
pub mod Notification
