-- ===== src/Tests/Scans.antt =====
-- A witness and runs for the scan of the two trees.
use tree.Prelude.{
  ℕ, ◌*◌, ◌≤◌, ◌≡◌, Bool, true, some, List, [], ◌∷◌, arith, refl, ok, length, ltb, map,
}
use tree.Index.{find}
use tree.Index.Sorted.{SortedTree}
use tree.TwoTree.Record.{HotRecord, tagged}
use tree.TwoTree.State.{TwoTree}
use tree.TwoTree.View.{view}
use tree.TwoTree.Scan.{scan}
use tree.TwoTree.Scan.Merged.{merge, hand_over}
use tree.TwoTree.Scan.Shown.{Climbs, scan_lem}
use tree.Tests.Trees.{H, C, state}

abbrev hot_record : ℕ → ℕ × HotRecord ℕ
hot_record k = (k, tagged (record { payload = 10 * k; bits = 1 }))

abbrev hot₉ : SortedTree (HotRecord ℕ)
hot₉ = record {
  entries = map hot_record (2 ∷ 4 ∷ 6 ∷ 8 ∷ 10 ∷ 12 ∷ 14 ∷ 16 ∷ 18 ∷ []);
  sorted = omega arith;
}

abbrev cold₃ : SortedTree ℕ
cold₃ = record { entries = (3, 30) ∷ (5, 50) ∷ (18, 7) ∷ []; sorted = omega arith }

abbrev trees : TwoTree (H 9) C
trees = state true 9 hot₉ cold₃

abbrev shown : List ℕ → List (ℕ × ℕ)
shown ks = map (λ k. (k, 10 * k)) ks

-- The processor stops the scan at its eleventh entry.
abbrev eleven : List (ℕ × ℕ) → Bool
eleven trace = ltb 10 (length trace)

abbrev hs : List (ℕ × ℕ)
hs = shown (4 ∷ 6 ∷ 8 ∷ 10 ∷ 12 ∷ 14 ∷ 16 ∷ 18 ∷ [])

abbrev cs : List (ℕ × ℕ)
cs = (3, 30) ∷ (5, 50) ∷ (18, 7) ∷ []

scan_lem_example :
    (scan (H 9) C eleven 12 trees 3 ≡ ok (some (hand_over eleven [] (merge hs cs))))
    × Climbs 3 (merge hs cs)
    × ((k : ℕ) → 3 ≤ k → find k (merge hs cs) ≡ view trees k)
scan_lem_example =
    scan_lem (H 9) C eleven 12 trees 3 hs cs (ground arith) (ground arith) (omega arith)

-- A record that both trees hold is handed over twice, the cold one last.
scan_twice : scan (H 9) C eleven 12 trees 17 ≡ ok (some ((18, 7) ∷ (18, 180) ∷ []))
unfolding scan
scan_twice = refl
