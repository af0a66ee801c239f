-- ===== src/Jobs.antt =====
-- internal/jobs: the jobs of one pool, the submit path, and the registry of all pools.
pub mod Ids
pub mod Manager
pub mod Submit
pub mod Memory
pub mod Invariant
pub mod Duplicates
pub mod Repeats
pub mod Leak
pub mod Registry
pub mod Isolation
mod Tests
