-- ===== src/Reporter.antt =====
-- v1/ao/internal/reporter: sampling, trace contexts, events and their transport.
pub mod Rpc
pub mod SqlSanitizer
pub mod Metadata
pub mod Sampling
pub mod Url
pub mod Context
pub mod BytesBucket
pub mod TriggerTrace
