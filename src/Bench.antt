-- ===== src/Bench.antt =====
-- bench/src: the measurements that accompany a release.
pub mod Percentile
pub mod Measures
pub mod Run
pub mod Wire
