-- ===== src/Close.antt =====
-- assets/diagrams/gen/gen_close.py: a consumer closes with jobs running, and hands them back.
pub mod State
pub mod Jobs
pub mod Rounds
pub mod Booked
pub mod Pull
pub mod Sim
pub mod Collapse
pub mod Chip
pub mod Walk
mod Tests
