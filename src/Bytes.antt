-- ===== src/Bytes.antt =====
-- Raw buffers: the ReadAt and WriteAt templates and the memcpy calls of storage/page.cpp,
-- wal/log_manager.cpp and sql/row_codec.cpp. A buffer is a list of bytes. The representation of an
-- unsigned integer that memcpy copies is the host's: here the little-endian one.
mod Codec
mod Buffer
mod Embedded
unfoldable pub use Codec.*
unfoldable pub use Buffer.*
pub use Embedded.*
