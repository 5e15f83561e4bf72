-- ===== src/Runtime.antt =====
-- internal/runtime: the pool of instances, the instances that it calls, the table of the instances
-- of the runtime, and the instances of pkg/plugin's `Info`.
pub mod Pool
pub mod Instance
pub mod Table
pub mod InfoInstance
