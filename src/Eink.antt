-- ===== src/Eink.antt =====
-- runtime/fx_eink.c: the client that sends a prompt to fx and paints the answer.
pub mod Buffer
pub mod Json
pub mod Keys
pub mod Prompt
pub mod Session
