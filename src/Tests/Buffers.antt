-- ===== src/Tests/Buffers.antt =====
-- Witnesses for the buffer manager's tables and words.
use tree.Prelude.{ℕ, ◌≡◌, ◌==◌, if◌then◌else◌, true, some, Ensures}
use tree.Buffer.IoTable.{IoTable, new_io_table, lookup, insert, remove, has, remove-insert}

abbrev table : IoTable ℕ
table = new_io_table 4

remove-insert_example :
    (lookup (insert table 7 70) 8 ≡ (if 7 == 8 then some 70 else lookup table 8))
    × (has (insert table 7 70) 7 ≡ true)
    × Ensures (remove (insert table 7 70) 7) (λ u. lookup u 8 ≡ lookup table 8)
remove-insert_example = remove-insert table 7 8 70
