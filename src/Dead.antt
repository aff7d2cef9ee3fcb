-- ===== src/Dead.antt =====
-- assets/diagrams/gen/gen_dead.py: a consumer dies holding jobs, and another one's sweep notices.
pub mod Store
pub mod TimeMap
pub mod Escape
pub mod Swap
pub mod Vis
pub mod Row
pub mod Build
mod Tests
