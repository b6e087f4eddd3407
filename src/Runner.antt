-- ===== src/Runner.antt =====
-- runtime/fx_wamr_runner.c: the launcher of the guest.
pub mod Resources
pub mod Cleanup
pub mod Environment
pub mod Reserve
pub mod Launch
pub mod Module
pub mod Allocator
