-- ===== src/Tests.antt =====
-- Runs of the models on small inputs, and the theorems at inputs that meet their hypotheses.
mod LockManager
mod Page
mod Wal
mod Sql
mod Lexer
mod Parser
mod Transaction
mod HeapFile
mod Index
mod BPlusTree
