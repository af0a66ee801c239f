-- ===== src/Rewards.antt =====
-- internal/rewards: what a confirmed block pays (rewards.go), when a block counts as confirmed
-- (confirm.go), and one sweep over a pool's blocks (processor.go). Amounts are base units: an int64
-- that is not positive is 0. A time is a number, and 0 is Go's zero time.
pub mod Split
pub mod Calculate
pub mod Confirm
pub mod Processor
mod Tests
