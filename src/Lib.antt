-- ===== src/Lib.antt =====
-- flintdb: a relational database engine in C++, from the slotted pages of its files to its SQL. This
-- library models the parts below and proves what makes them correct.
--
-- Parts, and the files that model them. Paths are from the repository's root.
--   src/txn/lock_manager.h, .cpp: Txn/LockManager. The lock table is a record of two maps.
--     `acquire_step` is one round of the loop of AcquireLock, whose outcome is the lock, the wait on
--     the condition variable or the exception; `release_all` is ReleaseAll. LockManager/System gives
--     the interleavings of the threads, since every call runs under the class's mutex.
--   src/storage/page.h, .cpp: Storage/Page, with one function for each method over the 4096 raw
--     bytes; Page/WellFormed has the invariant, and Page/View the page as a list of slots.
--   src/storage/disk_manager.h, .cpp: Storage/DiskManager, a file as its pages and their number.
--   src/storage/buffer_pool.h, .cpp: Storage/BufferPool, one function for each method. Its children say
--     what a client sees of a page (BufferPool/Coherent) and what each method does to it.
--   src/txn/transaction.h, .cpp, transaction_manager.h, .cpp: Txn/TransactionManager. The manager's record
--     holds the log, the lock table, the pools of the registered objects and each thread's current
--     transaction. `commit` and `abort` are composed of the same steps as Commit and Abort; a `raised`
--     result is an exception, with the state where it leaves the manager.
--   src/storage/heap_file.h, .cpp, src/common/rid.h: Txn/HeapFile, over Txn/PageAccess, which has the
--     calls that a heap file makes for a page: LockPage, FetchPage, NewHeapPage and MarkDirty. A call
--     stops where AcquireLock waits or throws, or where an exception is thrown.
--   src/index/btree.h, .cpp: Index/Node, the bytes of leaves, internal nodes and the root's header page,
--     FindSplitBoundary and FindRebalanceSplit; Index/BPlusTree, the constructor and the calls that read
--     the tree; BPlusTree/Contents, the tree that the pages make.
--   src/wal/log_record.h, log_manager.h, .cpp: Wal/LogRecord, Wal/Codec (the bytes of a record, the
--     checksum, the parse of one record) and Wal/LogManager (the constructor's scan, Append*, Flush,
--     FlushThrough and Checkpoint).
--   src/wal/recovery.h, .cpp: Wal/Recovery, both passes of RunRecovery.
--   src/catalog/catalog.h, the lookups of catalog.cpp, src/sql/sql_semantics.cpp: Sql/Schema.
--   src/sql/token.h, lexer.cpp: Sql/Lexer, Tokenize over bytes. `lex_round` is one round of its loop.
--   src/sql/ast.h: Sql/Ast, parsed statements.
--   src/sql/parser.cpp: Sql/Parser has the operations on the tokens left, Parser/Grammar one function
--     for each rule. Its loops have one unit of fuel for each token left and one more.
--   src/sql/planner.h, .cpp: Sql/Planner, PlanTableAccess and PlanSelect. An exception is a value that
--     says why. Planner/Usable says of the names in the catalog what the lookups find, Planner/Validity
--     what the checks accept, and Planner/Sides which table of a join a column belongs to. On these
--     stand Planner/Access, what a table's plan means, with Planner/Driving for its driving predicate,
--     and Planner/Join, what a join's plan means, with Planner/Division for its WHERE clause and
--     Planner/OnClause for its ON clause.
--   src/sql/row_codec.h, .cpp: Sql/RowCodec, the bytes of a row.
--   ReadAt, WriteAt and memcpy, which the byte layouts share: Bytes.
-- A commit logs the transaction's pages, syncs the log, writes the pages and releases the locks; the
-- pages are those that the pools' observers noted. The recovery reads the records that the log's scan
-- found and writes the files; the log stores page images; the pages are what the files hold. The
-- planner reads the catalog and a parsed statement, and its plan names the index and the key of a
-- probe.
-- Representation. Bytes and unsigned integers are native numbers, and a narrowing cast is written as a
-- remainder. memcpy of an integer copies the host's representation, which is taken to be
-- little-endian. std::set is a list in increasing order; the hash maps are functions from keys, and
-- where a hash map is walked, the order is that of a list. An observer is the id of the transaction
-- that it notifies. A pointer to a cached page is the page's place in its pool, written with `store`.
-- A vector is a list, and what a read beyond its end would give is zero.
-- Fuel. The scan of the log has one unit of fuel for each byte of the file and one more, and a record
-- takes at least one byte. FindRebalanceSplit has one for each place up to the highest. Tokenize has
-- one for each byte and one more, and a round takes at least one byte. The loops of the parser have
-- one for each token left and one more. The walks of the tree have kMaxTraversalSteps, like the source.
-- Not modelled: Insert and Delete of the tree and its ValidateInvariants; the interleaving of threads
-- within a Commit, an Abort or an Insert; system calls, which succeed (but fsync, whose result is an
-- argument); the loops over short reads and writes; the waiting of FlushThrough for another thread's
-- flush.
pub mod Index
pub mod Prelude
pub mod Bytes
pub mod Storage
pub mod Txn
pub mod Wal
pub mod Sql
pub mod Tests
