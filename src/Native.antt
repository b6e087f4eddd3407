-- ===== src/Native.antt =====
-- runtime/fx_wamr_native.c: the functions that the guest imports.
pub mod Guards
pub mod Json
pub mod Headers
pub mod Url
pub mod Local
pub mod Request
pub mod Session
pub mod Sink
pub mod Streams
mod Tests
