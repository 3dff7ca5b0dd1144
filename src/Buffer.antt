-- ===== src/Buffer.antt =====
-- backend/leanstore/storage/buffer-manager: the tagged page pointers, the table of I/O frames and the
-- page ids of a partition.
pub mod Swip
pub mod IoTable
pub mod Pages
