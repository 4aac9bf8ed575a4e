-- ===== src/Linking.antt =====
-- linking/: the instruction decoder, and the pass that replaces forbidden instructions by crashes.
pub mod Decode
pub mod Crash
pub mod Enforce
pub mod Tables
