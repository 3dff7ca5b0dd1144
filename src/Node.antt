-- ===== src/Node.antt =====
-- backend/leanstore/storage/btree/core/BTreeNode.hpp and BTreeNode.cpp.
pub mod Bytes
pub mod State
pub mod Search
pub mod Position
pub mod Searching
pub mod LowerBound
pub mod Store
pub mod Sorted
pub mod Boundaries
pub mod Hints
pub mod Update
pub mod Records
pub mod Valid
pub mod Space
pub mod Filled
pub mod Compaction
pub mod Storing
pub mod Inserting
pub mod Removing
pub mod Separating
pub mod Parting
pub mod Copying
pub mod Splitting
pub mod Merging
pub mod MergeSpace
pub mod Fences
pub mod Separator
pub mod Restructure
