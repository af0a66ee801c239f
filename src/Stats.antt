-- ===== src/Stats.antt =====
-- internal/stats/stats.go: the rings of the last fifteen minutes and the counters of pools and miners.
-- Times are seconds since 1970, as `now.Unix()` gives them, a duration is in seconds, and a count of
-- 64 bits is a number. The sums of difficulties are floats of the interface.
pub mod Ring
pub mod Collector
mod Tests
