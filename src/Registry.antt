-- ===== src/Registry.antt =====
-- internal/registry: image tags, their order, candidates.
pub mod Tag
pub mod Scope
pub mod Order
pub mod Candidates
pub mod Bump
pub mod Cache
pub mod Walk
pub mod Verify
pub mod Newer
pub mod Charts
pub mod Image
pub mod Vendor
