-- ===== src/Scan.antt =====
-- internal/scan: the checks of the references found, and the outcome of a scan.
pub mod Pool
pub mod Checks
pub mod Run
