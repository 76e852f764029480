-- ===== src/Lib.antt =====
-- InventixDB: the storage core of the database server, its transactions, its lexer and the consensus of
-- its cluster.
--
-- The program keeps two stores of rows. `src/storage.c` is a key-value table with open addressing,
-- a write-ahead log, a snapshot file and recovery from both; every row that it is given is also
-- written to `src/btree.c`, a table of one leaf page, which reads and writes its page through the
-- buffer pool of `src/buffer_pool.c`, which loads pages from the file of `src/pager.c`. The storage
-- engine of `src/storage_engine.c`, with its slotted pages and its LSM tree, is a store of its own that
-- neither of the two uses. `src/lexer.c` makes tokens of statements for the parser; `src/memory.c`
-- gives out memory in arenas and pools. `src/cluster.c` elects a leader among the nodes of a cluster,
-- keeps a Raft log on each and places the partitions; `src/timeout_config.c` has the timeouts of the
-- network and the backoff of retries.
--
-- Files and what they model:
-- - Base: bytes, lists over native numbers, little-endian fields, writes into a buffer, reads of fields.
-- - Kv/Table: `struct KVStore` without its files (entries, capacity, count), `hash`,
--   `kv_put_internal`, the loops of `kv_get` and `kv_delete`, `kv_iterate`.
--   Kv/Table/Walk, Map, Lookup, Delete and Home prove what a probe finds and what put and delete change.
-- - Kv/Log: the formats of the log (`kv_append_log`) and of the snapshot (`kv_snapshot_internal`),
--   and their reading in `kv_recover`. Kv/Log/Replay relates the two.
-- - Kv/Store: `kv_put`, `kv_get`, `kv_delete`, `kv_snapshot`, `kv_recover`, `kv_create` over a
--   table, a leaf table and a disk of two files. Kv/Store/Durable is about restarts.
-- - Page/Pager: `pager_open`, `pager_read`, `pager_write` on a file that is its bytes.
-- - Page/Pool: the slots of `BufferPool` as a list, and every operation on them. Page/Pool/Inv says
--   when a pool is valid and which bytes each page stands for; Replace, Keep, Get and Flush use it.
-- - Page/Leaf: the layout of a leaf page in its 4096 bytes, the search and the insertion.
-- - Page/BTable: `db_open`, `table_start`, `table_find`, `leaf_node_insert` over the pool.
-- - Txn: `src/transaction.c`, the undo log of the open transaction, its savepoints, `txn_begin`,
--   `txn_commit`, `txn_rollback`, `txn_rollback_to_savepoint`, `txn_release_savepoint` and the
--   `txn_log_` functions, over a store that is a parameter (its put, delete and get): Txn/State,
--   Txn/Rollback, Txn/Savepoints and Txn/Log. Txn/Inv is the state that every call keeps, Txn/Undo and
--   Txn/Partial are about the two rollbacks, and Txn/OnStore about them on the store of Kv/Store.
-- - Mvcc: `src/mvcc.c`. Mvcc/State is its state, Mvcc/Visible the snapshots and what a transaction
--   sees, Mvcc/Locks the lock table, one round of `mvcc_acquire_lock` at a time, Mvcc/Calls begin,
--   commit, abort, savepoints and tracking. Mvcc/Slots, Mvcc/Snapshot, Mvcc/Locks/Grant,
--   Mvcc/Calls/Begin and Mvcc/Calls/Commit hold the proofs. The transactions of `src/transaction.c`
--   and of `src/mvcc.c` are two subsystems; neither calls the other.
-- - Row: the row format of `src/row.c`, `row_serialize` and `row_deserialize`.
-- - Engine: `src/storage_engine.c`. Engine/SlottedPage is its pages of records (Slots, Inv, Shrink,
--   Pack, Compact: the proofs; Laws, Update, Calls: the operations on every branch). Engine/Rle is the
--   run-length code. Engine/Memtable is the AVL tree (Order, Content, Refine: it is a sorted list),
--   Engine/Bloom the filter, Engine/SsTable the tables on disk and their search, Engine/Lsm the tree of
--   `lsm_create`, `lsm_put`, `lsm_get`, `lsm_delete`, `lsm_flush_memtable` and `lsm_close`,
--   Engine/Lz4 is the LZ4-style code and Engine/Compress the compression of whole pages by it.
--   Engine/Manager the calls `storage_engine_put`, `storage_engine_get`, `storage_engine_delete`.
-- - Cluster: `src/cluster.c`, the state `ClusterState` with its nodes and health checks. Cluster/Raft is
--   heartbeats, elections, votes and the log; Cluster/Raft/Calls says what a history of a node is, and
--   Votes, Leader, Entries, LogInv and Grows hold the proofs. Cluster/Partition is the partitions and
--   their rebalancing, and Cluster/Partition/Stuck is about its loop.
-- - Lexer: `src/lexer.c`, `check_keyword` with its list of keywords (Lexer/Keywords) and the loop of
--   `tokenize`. Lexer/Ends and Lexer/Words hold the proofs.
-- - Memory: the arena allocator of `src/memory.c`, `arena_create_with_quota`, `arena_alloc`,
--   `arena_reset`, `arena_clear`, `arena_checkpoint`, `arena_restore`. Memory/Apart and Memory/Restore
--   hold the proofs. Memory/Pool is the pools of blocks of one size (`pool_alloc`, `pool_free`,
--   `pool_reset`), with Blocks, Inv and Calls for what they keep. Memory/Session is the quotas, the
--   memory of a session and the functions that call the arena; Memory/Session/Bounds is about quotas.
-- - Timeout: `src/timeout_config.c`; Timeout/Laws holds the proofs.
-- - Kv/Tests, Page/Tests, Txn/Tests, Mvcc/Tests, Row/Tests, Lexer/Tests, Memory/Tests,
--   Memory/Pool/Tests, Memory/Session/Tests, Cluster/Tests, Cluster/Partition/Tests, Timeout/Tests,
--   Engine/Tests, Engine/SlottedPage/Tests, Engine/Compress/Tests: runs on small states.
--
-- Conventions. A buffer is a list of numbers, one for each byte. A word of the machine has its
-- wrap-around written out. `malloc` succeeds, except for the blocks of an arena, where that is a
-- parameter; what it returns is a parameter `garbage` where the code reads it. A call of `fopen` that
-- may fail is a Boolean parameter. A read through a NULL pointer is `none`; the lock table notes
-- whether a freed lock was read. What a node of the cluster reads from a peer is a function of the
-- message that it sends; the clock and `rand` are arguments. The clock of the buffer pool and its
-- pins are not bounded. Mutexes and read-write locks are left out: an operation is one step.
--
-- Fuel. A probe is given the capacity of the table: the probe of the source stops after as many
-- steps, back at its start. The replay of a log is given one step more than the bytes of the file,
-- and a record has at least one byte. The search in a leaf is given one step more than the cells, the
-- search in an SSTable one step more than the bytes of its file, run-length compression one step for
-- each byte, LZ4-style compression and decompression one step for each byte of their input, the loop of
-- `raft_commit_to` one step for each entry of the log, the lexer one step more than the characters.
-- The rounds of `rebalance_partitions` for each node are an argument, since its loop may not end.
--
-- Not modelled: the secondary index of `src/storage.c` (a skip list fed from JSON text), printing,
-- sockets, threads, variable records and column chunks of `src/storage_engine.c`, the counters of all
-- allocations in `src/memory.c`, replication and the pool of clients of `src/cluster.c`, and the other
-- files of `src/`.
pub mod Base
pub mod Kv
pub mod Page
pub mod Txn
pub mod Mvcc
pub mod Lexer
pub mod Memory
pub mod Timeout
pub mod Row
pub mod Cluster
pub mod Engine
