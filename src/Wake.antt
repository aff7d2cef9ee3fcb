-- ===== src/Wake.antt =====
-- assets/diagrams/gen/gen_wake.py: two consumers in the idle set, and the wakes of an enqueue.
pub mod Simulate
pub mod Walk
pub mod Pulse
pub mod Chips
pub mod Tracks
