-- ===== src/Proto.antt =====
-- crates/hit-proto: what goes over a connection between two devices, and the links that people share.
pub mod Frame
pub mod Io
pub mod Links
