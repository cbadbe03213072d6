-- ===== src/Reporter/Sampling.antt =====
-- v1/ao/internal/reporter/event.go and oboe.go: the sampling decision. Its children model the
-- setting flags, the token buckets, the settings with their merging, and the request handler.
pub mod Flags
pub mod TokenBucket
pub mod Settings
pub mod Request
