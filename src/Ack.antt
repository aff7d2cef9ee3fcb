-- ===== src/Ack.antt =====
-- assets/diagrams/gen/gen_ack.py: one queue, one consumer, two jobs; the second one is not acknowledged.
pub mod Walk
pub mod Build
pub mod Run
pub mod Sweep
pub mod Pop
mod Tests
