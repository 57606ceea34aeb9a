-- ===== src/Trigger.antt =====
-- internal/trigger: starting a scan.
pub mod Process
