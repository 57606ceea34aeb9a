-- ===== src/Report.antt =====
-- internal/report: the contract between scanner and dashboard.
pub mod Types
pub mod Store
pub mod Writer
pub mod Poller
