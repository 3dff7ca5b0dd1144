-- ===== src/Lib.antt =====
-- 2-Tree (TieredIndexing): index structures in two tiers, a hot one over a cold one, with records that
-- migrate between them by their hotness. This library models its two-tree adapter, the
-- locks that the adapter takes, the slotted pages of its B-trees and the lookup through them, the bytes
-- of its keys, the page words and tables of the buffer manager with a hash of its utilities, the
-- anti-caching adapter that the two-tree one is compared with, and its linear hash table.
--
-- Parts, and the files that model them:
--
-- - backend/twotree/ConcurrentTwoBTree.hpp, `ConcurrentTwoBTreeAdapter`: TwoTree. `TwoTree.Record` has
--   `TaggedPayload` and the delete mark, `TwoTree.State` the fields, `TwoTree.Admit` the writes to one
--   tree (`insert_hot_partition` and the like, `admit_element` and the like), `TwoTree.Access` the
--   operations from where they have the lock of their key (`lookup_internal`, `lookup_rounds` for the
--   loop of `lookup`, `insert_locked`, `remove`, `update_locked`, `put_locked`), `TwoTree.Evict` the
--   three parts of `evict_a_bunch` and `evict_all`, `TwoTree.Handlers` the operations with the eviction
--   that they try first, `TwoTree.Scan` the two buffers and the loop of `scan`. The other
--   files of that folder hold theorems.
-- - backend/LockManager/LockManager.hpp: Lock. `Lock.Table` and `Lock.Optimistic` follow
--   `OptimisticLockTable` and `OptimisticLockGuard`, `Lock.Pessimistic` follows `PessimisticLockGuard`.
--   `Lock.Protocol` interleaves the atomic accesses of any number of threads.
-- - backend/leanstore/storage/btree/core/BTreeInterface.hpp: Index. `Index.Contract` is a record of the
--   operations that the adapter calls and of what it relies on; it is a parameter of the adapter's
--   model. `Index.Sorted` fills it with sorted lists.
-- - backend/leanstore/storage/btree/core/BTreeNode.hpp and BTreeNode.cpp: Node. `Node.Bytes` has `cmpKeys` and
--   `head`, `Node.State` the fields and the space, `Node.Search` `searchHint` and `lowerBound`, `Node.Store`
--   hints, fences and the copying of records, `Node.Update` the operations on records, `Node.Separator` and
--   `Node.Restructure` separators, `merge` and `split`. A slot carries the bytes that the page has at its
--   offset, so that its lengths are those of lists; `Layout` has the sizes of the page, the header and a
--   slot. The other files of that folder hold theorems.
-- - backend/leanstore/storage/btree/core/BTreeGeneric.hpp and backend/leanstore/storage/btree/BTreeLL.cpp:
--   BTree. `BTree.Descent` has `findLeafCanJump` from the root's swip on and the `lookup` that follows it,
--   in a run that no other thread disturbs. The pages are a function of the words of their swips.
-- - backend/anti-caching/AntiCache.hpp: AntiCache. `AntiCache.Lru` has the nodes and the three operations on
--   the linked list, `AntiCache.Adapter` the state of `AntiCacheAdapter`, eviction and admission, and
--   `AntiCache.Access` the way back from a block, `lookup` and `update`. `AntiCache.Tables` has
--   what it asks of its `stx::btree_map`s and of RocksDB, as parameters. The other files of that folder hold
--   theorems. New nodes get ascending addresses.
-- - backend/leanstore/storage/hashing/LinearHashing.hpp and LinearHashing.cpp: Linear. `Linear.Page` has
--   `LinearHashingNode`, `Linear.Table` the state, the split pointer and the bucket of a key, `Linear.Split`
--   the parts of `split`, `Linear.Access` `lookup`, `insert` (`insert_key`), `insert_might_fail` and `upsert`,
--   `Linear.Remove` `remove` and `merge_chain`, all in runs that no other thread disturbs. A bucket is the list
--   of the pages of its chain; the hash functions and the test of the load are parameters. The other files of
--   that folder hold theorems.
-- - backend/leanstore/BTreeAdapter.hpp: Keys. `Keys.Fold` has `fold` and `unfold` of unsigned keys and
--   `fold` of signed ones of 64 bits; the builtin `bswap` reverses the bytes of a word.
-- - backend/leanstore/storage/buffer-manager/Swip.hpp, Partition.hpp and Partition.cpp: Buffer.
--   `Buffer.Swip` has the tagged page words, `Buffer.IoTable` the chained `HashTable`, with a parameter
--   `V` for the frames that it holds, and `Buffer.Pages` the page ids that a partition hands out.
-- - backend/leanstore/utils/FNVHash.cpp: Hash. `Hash.Fnv` has `hash_u64` and `hash`.
--
-- The adapter's operations act on the state that they find when they hold the lock of their key. What
-- they learn from elsewhere is an argument: the pages that the buffer manager counts and the random
-- numbers (`Draws`), the answers of the locks (`Locks`, `Round`), and whether a hot tree has room. A
-- `fault` is a failed assertion or an access past a record. A key is a natural number, the one that
-- `fold` writes in order-preserving bytes. Counters are 64-bit words. The assertions of a B-tree node that
-- slots and heap stay apart are made in `split` alone (`copy_fits`); the other operations of a node keep only
-- the accounts that these assertions read. A spinning loop takes the list
-- of what its rounds meet; the theorems say what its result is once a round ends it. The descent of a
-- B-tree takes fuel; any fuel above the height of the tree is shown to be enough. So does the loop of
-- `scan`; any fuel above the number of records that it may hand over is shown to be enough. So does the
-- loop of `evict_bunch`; any fuel above the number of cached tuples is shown to be enough, for
-- `evict_all` as well. `lookup` and `update` of that adapter call themselves: one call more than the first
-- is shown to be enough while the cache has room for a block.
--
-- Not modelled: reports, I/O statistics and time stamps, which only print; the latches of the pages and
-- the writes through a whole B-tree; the buffer manager's asynchronous I/O; the directory pages, restarts and
-- latches of linear hashing; heap files; the other adapters and the benchmarks.
mod Prelude
pub mod Lock
pub mod Index
pub mod Buffer
pub mod Hash
pub mod Node
pub mod BTree
pub mod AntiCache
pub mod Linear
pub mod Keys
pub mod TwoTree
mod Tests
