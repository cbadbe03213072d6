-- ===== src/Hdrhist.antt =====
-- v1/ao/internal/hdrhist: the histogram package.
pub mod Zigzag
pub mod Buckets
pub mod Hist
pub mod Recorder
