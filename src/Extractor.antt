-- ===== src/Extractor.antt =====
-- internal/extractor: the references that a repository's files pin.
pub mod Ref
pub mod ImageRef
pub mod Node
pub mod Images
pub mod Paths
pub mod Dockerfile
pub mod Url
pub mod Manifests
pub mod Yaml
pub mod Helm
pub mod Flux
