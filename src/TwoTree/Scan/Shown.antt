-- ===== src/TwoTree/Scan/Shown.antt =====
-- backend/twotree/ConcurrentTwoBTree.hpp: `scan` in terms of what the two trees hold.
use tree.Prelude.{
  either, ℕ, suc, ◌+◌, ◌≤◌, ◌<◌, ◌≡◌, Bool, Option, none, some, List, [], ◌∷◌, ◌++◌, arith, refl,
  sym, ap, subst, ◌∙◌, leb, length, Run, ok,
}
use tree.Index.{Index, Ascends, find}
use tree.TwoTree.Record.{HotRecord, tagged, delete_mark}
use tree.TwoTree.State.{TwoTree}
use tree.TwoTree.View.{over, view}
use tree.TwoTree.Scan.{read_hot, read_cold, scan}
use tree.TwoTree.Scan.Merged.{merge, hand_over}
use tree.TwoTree.Scan.Filled.{Readable}
use tree.TwoTree.Scan.Loop.{scan_from_lem}

module _ {V : Type 0} where
  find-below : (es : List (ℕ × V)) (low j : ℕ) → Ascends low es → j < low → find j es ≡ none
  find-below [] low j a lt = refl
  find-below ((k, v) ∷ es) low j a lt = ground (arith, find-below es (suc k) j a.1)

  -- Ascending lists that hold the same are the same.
  same_entries :
      (low : ℕ) (es fs : List (ℕ × V))
      → Ascends low es
      → Ascends low fs
      → ((j : ℕ) → low ≤ j → find j es ≡ find j fs)
      → es ≡ fs
  same_entries low [] [] a b h = refl
  same_entries low [] ((k, v) ∷ fs) a b h = absurd (ground (arith, h k b.0))
  same_entries low ((k, v) ∷ es) [] a b h = absurd (ground (arith, h k a.0))
  same_entries low ((k, v) ∷ es) ((j, w) ∷ fs) a b h =
      let key : k ≡ j =
        ground
          (arith, h k a.0, h j b.0, find-below es (suc k) j a.1, find-below fs (suc j) k b.1) in
      let value : v ≡ w = ground (arith, h k a.0, key) in
      let rest : es ≡ fs =
        same_entries (suc k) es fs a.1 (subst (λ n. Ascends (suc n) fs) (sym key) b.1)
          (λ i le. ground (arith, h i (omega (arith, a.0)), key)) in
      λ i. (key i, value i) ∷ rest i

  Ascends-after :
      (before after : List (ℕ × V)) (low k : ℕ) (v : V)
      → Ascends low (before ++ ((k, v) ∷ after))
      → (low ≤ k) × Ascends (suc k) after
  Ascends-after [] after low k v a = a
  Ascends-after ((j, w) ∷ before) after low k v a =
      let (le, rest) = Ascends-after before after (suc j) k v a.1 in (omega (arith, a.0), rest)

  find-after :
      (before after : List (ℕ × V)) (low k j : ℕ) (v : V)
      → Ascends low (before ++ ((k, v) ∷ after))
      → suc k ≤ j
      → find j (before ++ ((k, v) ∷ after)) ≡ find j after
  find-after [] after low k j v a h = ground arith
  find-after ((i, w) ∷ before) after low k j v a h = ground (
    arith,
    (Ascends-after before after (suc i) k v a.1).0,
    find-after before after (suc i) k j v a.1 h,
  )

  -- A scan from after an entry goes on with what came after it.
  scan_continues :
      (I : Index V) (t : I.Tree) (low k : ℕ) (v : V) (before after : List (ℕ × V))
      → I.scan_asc t low ≡ before ++ ((k, v) ∷ after)
      → I.scan_asc t (suc k) ≡ after
  scan_continues I t low k v before after e =
      let a : Ascends low (before ++ ((k, v) ∷ after)) =
        subst (Ascends low) e (I.scan_ascends t low) in
      let (le, rest) = Ascends-after before after low k v a in
      same_entries (suc k) (I.scan_asc t (suc k)) after (I.scan_ascends t (suc k)) rest (λ j h.
        I.find-scan t (suc k) j h
        ∙ sym (I.find-scan t low j (omega arith))
        ∙ ap (find j) e
        ∙ find-after before after low k j v a h)

-- The keys do not descend, from `low` on.
abbrev pub Climbs : {P : Type 0} → ℕ → List (ℕ × P) → Type 0
Climbs low [] = Unit
Climbs low ((k, p) ∷ l) = (low ≤ k) × Climbs k l

abbrev or_else : {P : Type 0} → Option P → Option P → Option P
or_else (some p) q = some p
or_else none q = q

module _ {P : Type 0} where
  or_else-none : (p : Option P) → or_else p none ≡ p
  or_else-none none = refl
  or_else-none (some p) = refl

  Climbs-lower : (l : List (ℕ × P)) (low high : ℕ) → low ≤ high → Climbs high l → Climbs low l
  Climbs-lower [] low high h c = tt
  Climbs-lower (x ∷ l) low high h c = (omega (arith, c.0), c.1)

  Ascends-lower : (l : List (ℕ × P)) (low high : ℕ) → low ≤ high → Ascends high l → Ascends low l
  Ascends-lower [] low high h c = tt
  Ascends-lower (x ∷ l) low high h c = (omega (arith, c.0), c.1)

  Ascends-Climbs : (l : List (ℕ × P)) (low : ℕ) → Ascends low l → Climbs low l
  Ascends-Climbs [] low a = tt
  Ascends-Climbs ((k, p) ∷ l) low a =
      (a.0, Climbs-lower l k (suc k) (omega arith) (Ascends-Climbs l (suc k) a.1))

  merge-Climbs :
      (hs cs : List (ℕ × P)) (low : ℕ) → Ascends low hs → Ascends low cs → Climbs low (merge hs cs)
  unfolding merge
  merge-Climbs [] cs low a b = Ascends-Climbs cs low b
  merge-Climbs (x ∷ hs) [] low a b = Ascends-Climbs (x ∷ hs) low a
  merge-Climbs (x ∷ hs) (y ∷ cs) low a b =
      either (Climbs low) (leb x.0 y.0) _ _
        (λ e. (
          a.0,
          merge-Climbs hs (y ∷ cs) x.0 (Ascends-lower hs x.0 (suc x.0) (omega arith) a.1)
              (ground (arith, e), b.1),
        ))
        (λ e. (
          b.0,
          merge-Climbs (x ∷ hs) cs y.0 (ground (arith, e), a.1)
              (Ascends-lower cs y.0 (suc y.0) (omega arith) b.1),
        ))

  find-merge :
      (hs cs : List (ℕ × P)) (low : ℕ) (k : ℕ)
      → Ascends low hs
      → Ascends low cs
      → find k (merge hs cs) ≡ or_else (find k hs) (find k cs)
  unfolding merge
  find-merge [] cs low k a b = refl
  find-merge (x ∷ hs) [] low k a b = sym (or_else-none (find k (x ∷ hs)))
  find-merge (x ∷ hs) (y ∷ cs) low k a b =
      either (λ l. find k l ≡ or_else (find k (x ∷ hs)) (find k (y ∷ cs))) (leb x.0 y.0) _ _
        (λ e. ground (
          arith,
          find-merge hs (y ∷ cs) x.0 k (Ascends-lower hs x.0 (suc x.0) (omega arith) a.1)
              (ground (arith, e), b.1),
        ))
        (λ e. ground (
          arith,
          e,
          find-merge (x ∷ hs) cs y.0 k (ground (arith, e), a.1)
              (Ascends-lower cs y.0 (suc y.0) (omega arith) b.1),
          find-below hs (suc x.0) k a.1,
        ))

  Readable-Ascends :
      {V : Type 0} (read : V → Run P) (es : List (ℕ × V)) (l : List (ℕ × P)) (low : ℕ)
      → Readable read es l
      → Ascends low es
      → Ascends low l
  Readable-Ascends read [] [] low r a = tt
  Readable-Ascends read [] (x ∷ l) low r a = absurd r
  Readable-Ascends read (x ∷ es) [] low r a = absurd r
  Readable-Ascends read ((k, v) ∷ es) ((j, p) ∷ l) low (same, value, small, r) a = (
    subst (λ n. low ≤ n) same a.0,
    subst (λ n. Ascends (suc n) l) same (Readable-Ascends read es l (suc k) r a.1),
  )

  find-hot :
      (es : List (ℕ × HotRecord P)) (l : List (ℕ × P)) (k : ℕ) (q : Option P)
      → Readable read_hot es l
      → or_else (find k l) q ≡ over (find k es) q
  find-hot [] [] k q r = refl
  find-hot [] (x ∷ l) k q r = absurd r
  find-hot (x ∷ es) [] k q r = absurd r
  find-hot ((i, delete_mark) ∷ es) ((j, p) ∷ l) k q (same, value, small, r) = cc
  find-hot ((i, tagged tp) ∷ es) ((j, p) ∷ l) k q (same, value, small, r) =
      ground (arith, find-hot es l k q r)

  find-cold : (es l : List (ℕ × P)) (k : ℕ) → Readable read_cold es l → find k l ≡ find k es
  find-cold [] [] k r = refl
  find-cold [] (x ∷ l) k r = absurd r
  find-cold (x ∷ es) [] k r = absurd r
  find-cold ((i, v) ∷ es) ((j, p) ∷ l) k (same, value, small, r) =
      ground (arith, find-cold es l k r)

-- The trees hold no delete mark and no greatest 64-bit key from the start key on, and show `hs` and `cs`
-- there. Then `scan`, with more fuel than these lists are long, ends without a fault; it has handed to the
-- processor, until that stopped it, the merge of the two lists, a hot record before the cold one of its key.
-- The keys of the merge do not descend, and its first record of a key is what a client sees of the key.
pub scan_lem :
    {P : Type 0} (H : Index (HotRecord P)) (C : Index P) (processor : List (ℕ × P) → Bool)
    (fuel : ℕ) (s : TwoTree H C) (start_key : ℕ) (hs cs : List (ℕ × P))
    → Readable read_hot (H.scan_asc s.hot start_key) hs
    → Readable read_cold (C.scan_asc s.cold start_key) cs
    → length hs + length cs < fuel
    → (scan H C processor fuel s start_key ≡ ok (some (hand_over processor [] (merge hs cs))))
      × Climbs start_key (merge hs cs)
      × ((k : ℕ) → start_key ≤ k → find k (merge hs cs) ≡ view s k)
unfolding scan
scan_lem H C processor fuel s start_key hs cs rh rc enough =
    let a =
      Readable-Ascends read_hot (H.scan_asc s.hot start_key) hs start_key rh
        (H.scan_ascends s.hot start_key) in
    let b =
      Readable-Ascends read_cold (C.scan_asc s.cold start_key) cs start_key rc
        (C.scan_ascends s.cold start_key) in
    (
      scan_from_lem read_hot read_cold (H.scan_asc s.hot) (C.scan_asc s.cold)
          (scan_continues H s.hot) (scan_continues C s.cold) processor fuel start_key hs cs rh rc
          enough,
      merge-Climbs hs cs start_key a b,
      λ k h.
          find-merge hs cs start_key k a b
          ∙ find-hot (H.scan_asc s.hot start_key) hs k (find k cs) rh
          ∙ ap (λ c. over (find k (H.scan_asc s.hot start_key)) c)
              (find-cold (C.scan_asc s.cold start_key) cs k rc ∙ C.find-scan s.cold start_key k h)
          ∙ ap (λ r. over r (C.lookup s.cold k)) (H.find-scan s.hot start_key k h),
    )
