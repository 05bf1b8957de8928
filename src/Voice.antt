-- ===== src/Voice.antt =====
-- crates/hit-voice: the parts of a call that are pure: the jitter buffer and the audio packets.
pub mod Jitter
pub mod Wire
