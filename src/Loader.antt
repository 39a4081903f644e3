-- ===== src/Loader.antt =====
-- The control plane: project_submit/ebpf_control/src/loader.c.
pub mod Text
pub mod Config
pub mod Clients
pub mod Json
pub mod Publish
pub mod Rates
pub mod Stats
pub mod System
pub mod Log
pub mod Startup
pub mod Loop
mod Tests
mod LoopTests
