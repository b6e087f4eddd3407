-- ===== src/Einkctl.antt =====
-- runtime/einkctl.c: the program that lays text out and drives the e-paper panel.
pub mod Sanitize
pub mod Wrap
pub mod Frame
pub mod Page
pub mod Panel
