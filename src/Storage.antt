-- ===== src/Storage.antt =====
-- src/storage: the slotted page.
pub mod Page
pub mod DiskManager
pub mod BufferPool
