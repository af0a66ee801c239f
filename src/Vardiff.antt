-- ===== src/Vardiff.antt =====
-- Difficulty: its conversion to targets, and the controller that adjusts it.
pub mod Difficulty
pub mod Controller
mod Tests
