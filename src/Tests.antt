-- ===== src/Tests.antt =====
-- The theorems at concrete inputs, and runs of the code.
mod Locks
mod Trees
mod Buffers
mod Hashes
mod Nodes
mod Restructured
mod Descents
mod Keyed
mod Scans
mod AntiCaches
mod Linears
