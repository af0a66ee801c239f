-- ===== src/Pool.antt =====
-- internal/pool: the life cycle of each pool, and the manager that holds all of them.
pub mod State
pub mod Service
pub mod Lifecycle
pub mod Laws
pub mod Loop
pub mod Invariant
pub mod Isolation
pub mod Races
pub mod Stranded
mod Tests
