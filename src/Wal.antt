-- ===== src/Wal.antt =====
-- src/wal: the write-ahead log and recovery.
pub mod LogRecord
pub mod Codec
pub mod LogManager
pub mod Recovery
