-- ===== src/Config.antt =====
-- internal/config/config.go: which configurations are accepted.
pub mod Checked
pub mod Location
pub mod Repos
pub mod Written
pub mod Secret
pub mod Parts
pub mod Laws
