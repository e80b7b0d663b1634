-- ===== src/Txn.antt =====
-- src/txn: the lock table and the transactions.
pub mod LockManager
pub mod TransactionManager
pub mod PageAccess
pub mod HeapFile
