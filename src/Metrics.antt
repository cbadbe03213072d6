-- ===== src/Metrics.antt =====
-- v1/ao/internal/metrics: the counters of a report cycle.
pub mod RateCounts
pub mod TransMap
