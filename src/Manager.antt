-- ===== src/Manager.antt =====
-- internal/manager: loading plugins in the order of their dependencies, and their life cycle.
pub mod DependencySort
pub mod Wasm
pub mod Lifecycle
pub mod Server
pub mod HostFunctions
pub mod Loader
pub mod LoadAll
pub mod Storage
mod Examples
pub mod LifecycleExamples
