-- ===== src/LogStore.antt =====
-- internal/logstore: the frames of a workload log and their bytes on disk.
pub mod Bytes
pub mod Frame
pub mod Codec
pub mod Scan
pub mod Store
pub mod Examples
pub mod ScanExamples
