-- ===== src/Plugin.antt =====
-- pkg/plugin: versions, manifests, plugin states and call metrics.
pub mod Version
pub mod Regex
pub mod Manifest
pub mod State
pub mod Metrics
pub mod Info
mod Examples
