-- ===== src/Kfu.antt =====
-- assets/diagrams/gen/kfu.py: keyframe helpers, authored in seconds.
pub mod Keyframes
pub mod Reading
pub mod Spans
pub mod Pulses
pub mod States
pub mod Bar
pub mod Pool
pub mod Rows
pub mod Walk
mod Tests
