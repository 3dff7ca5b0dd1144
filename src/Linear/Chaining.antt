-- ===== src/Linear/Chaining.antt =====
-- backend/leanstore/storage/hashing/LinearHashing.cpp: the loop of `split` over the pages of a chain, and how many
-- pages it fills.
use tree.Prelude.{
  none, subst, ℕ, ◌+◌, ◌^◌, ◌<◌, ◌≤◌, ◌≡◌, Bool, false, List, [], ◌∷◌, ◌++◌, length, arith, refl,
  sym, ap, ◌∙◌, Run, ok, ◌>>=◌,
}
use mathlib.Core.List.{append-nil, append_assoc}
use tree.Linear.Page.{Geometry, Slot, Page, new_page}
use tree.Linear.Fitting.{Fits, fill, new_page-Fits}
use tree.Linear.Table.{Functions}
use tree.Linear.Split.{Pages, pages, size, part_chain}
use tree.Linear.Search.{find_record}
use tree.Linear.Apart.{Distinct, Absent, Absent-nil, Absent-append, Distinct-parts}
use tree.Linear.Written.{Absent-select}
use tree.Linear.Placing.{records, All, All-parts}
use tree.Linear.Parting.{select, select-append, select-fill, stays, moves, Good, part_slots_lem}

module _ (G : Geometry) (F : Functions) (small : G.page_bytes < 2 ^ 15)
    (i split_bucket buddy_bucket : ℕ) (power : i + 1 < 16) where
  page_fill : (p : Page) → Fits G p → fill G p.slots ≤ G.page_bytes
  page_fill p f = omega (arith, f.apart, f.within)

  -- What the loop over the pages leaves of one of the two vectors.
  pub record Grown (f : Slot → Bool) (v : Pages) (n : ℕ) (ps : List Page) (v' : Pages)
      : Type 0 where
    pub kept : records (pages v') ≡ records (pages v) ++ select f (records ps)
    pub fits : All (Fits G) (pages v')
    pub few : size v' ≤ n

  pub record Chained (v : Pages × Pages) (n m : ℕ) (ps : List Page) (r : Run (Pages × Pages))
      : Type 0 where
    pub left : Pages
    pub right : Pages
    pub run : r ≡ ok (left, right)
    pub lefts : Grown (stays G F small i split_bucket buddy_bucket power) v.0 n ps left
    pub rights : Grown (moves G F small i split_bucket buddy_bucket power) v.1 m ps right

  Grown-cons :
      (f : Slot → Bool) (v w x : Pages) (p : Page) (ps : List Page) (n : ℕ)
      → records (pages w) ≡ records (pages v) ++ select f p.slots
      → Grown f w n ps x
      → Grown f v n (p ∷ ps) x
  Grown-cons f v w x p ps n k g = record {
    kept =
        g.kept
        ∙ ap (λ m. m ++ select f (records ps)) k
        ∙ append_assoc (records (pages v)) (select f p.slots) (select f (records ps))
        ∙ ap (λ m. records (pages v) ++ m) (sym (select-append f p.slots (records ps)));
    fits = g.fits;
    few = g.few;
  }

  looser :
      (f : Slot → Bool) (v w : Pages) (ps : List Page) (n m : ℕ)
      → n ≤ m
      → Grown f v n ps w
      → Grown f v m ps w
  looser f v w ps n m h g = record { kept = g.kept; fits = g.fits; few = omega (arith, h, g.few) }

  -- The records to come are in no vector.
  Absent-grown :
      (f : Slot → Bool) (v w : Pages) (p : Page) (ps : List Page)
      → records (pages w) ≡ records (pages v) ++ select f p.slots
      → Absent p.slots (records ps)
      → Absent (records (pages v)) (records ps)
      → Absent (records (pages w)) (records ps)
  Absent-grown f v w p ps k a b =
      subst (λ r. Absent r (records ps)) (sym k)
        (Absent-append (records (pages v)) (select f p.slots) (records ps) b
          (Absent-select f p.slots (records ps) a))

  pub part_chain_lem :
      (ps : List Page) (v : Pages × Pages)
      → All (Good G F small i split_bucket buddy_bucket power) (records ps)
      → Distinct (records ps)
      → Absent (records (pages v.0)) (records ps)
      → Absent (records (pages v.1)) (records ps)
      → All (Fits G) ps
      → All (Fits G) (pages v.0)
      → All (Fits G) (pages v.1)
      → Chained v
          (size v.0 + length ps)
          (size v.1 + length ps)
          ps
          (part_chain G F i split_bucket buddy_bucket ps v)
  unfolding part_chain
  part_chain_lem [] v g d x y fs f h = record {
    left = v.0;
    right = v.1;
    run = refl;
    lefts = record { kept = sym (append-nil (records (pages v.0))); fits = f; few = omega arith };
    rights = record { kept = sym (append-nil (records (pages v.1))); fits = h; few = omega arith };
  }
  part_chain_lem (p ∷ ps) v g d x y (fp, fs) f h =
      let (gp, gs) =
        All-parts (Good G F small i split_bucket buddy_bucket power) p.slots (records ps) g in
      let (dp, ds, apart) = Distinct-parts p.slots (records ps) d in
      let (xp, xs) =
        All-parts (λ s. find_record s.key (records (pages v.0)) ≡ none) p.slots (records ps) x in
      let (yp, ys) =
        All-parts (λ s. find_record s.key (records (pages v.1)) ≡ none) p.slots (records ps) y in
      let a =
        part_slots_lem G F small i split_bucket buddy_bucket power p.slots v gp dp xp yp f h in
      let c =
        part_chain_lem ps (a.left, a.right) gs ds
          (Absent-grown (stays G F small i split_bucket buddy_bucket power) v.0 a.left p ps
            a.lefts.kept apart xs)
          (Absent-grown (moves G F small i split_bucket buddy_bucket power) v.1 a.right p ps
            a.rights.kept apart ys)
          fs a.lefts.fits a.rights.fits in
      let fill₁ = select-fill G (stays G F small i split_bucket buddy_bucket power) p.slots in
      let fill₂ = select-fill G (moves G F small i split_bucket buddy_bucket power) p.slots in
      let page = page_fill p fp in
      let n : size a.left ≤ size v.0 + 1 = a.lefts.one_more (omega (arith, fill₁, page)) in
      let m : size a.right ≤ size v.1 + 1 = a.rights.one_more (omega (arith, fill₂, page)) in
      record {
        left = c.left;
        right = c.right;
        run =
            ap (λ (r : Run (Pages × Pages)). r >>= part_chain G F i split_bucket buddy_bucket ps)
              a.run
            ∙ c.run;
        lefts =
            Grown-cons (stays G F small i split_bucket buddy_bucket power) v.0 a.left c.left p ps
              (size v.0 + length (p ∷ ps)) a.lefts.kept
              (looser (stays G F small i split_bucket buddy_bucket power) a.left c.left ps
                (size a.left + length ps) (size v.0 + length (p ∷ ps)) (omega (arith, n)) c.lefts);
        rights =
            Grown-cons (moves G F small i split_bucket buddy_bucket power) v.1 a.right c.right p ps
              (size v.1 + length (p ∷ ps)) a.rights.kept
              (looser (moves G F small i split_bucket buddy_bucket power) a.right c.right ps
                (size a.right + length ps) (size v.1 + length (p ∷ ps)) (omega (arith, m))
                c.rights);
      }

  abbrev pub fresh : Pages × Pages
  fresh = (
    record { full = []; back = new_page G false split_bucket },
    record { full = []; back = new_page G false buddy_bucket },
  )

  -- From two empty pages, each vector takes at most as many pages as the chain has.
  pub from_fresh :
      (p : Page) (ps : List Page)
      → All (Good G F small i split_bucket buddy_bucket power) (records (p ∷ ps))
      → Distinct (records (p ∷ ps))
      → All (Fits G) (p ∷ ps)
      → G.slots_offset ≤ G.page_bytes
      → Chained fresh
          (length (p ∷ ps))
          (length (p ∷ ps))
          (p ∷ ps)
          (part_chain G F i split_bucket buddy_bucket (p ∷ ps) fresh)
  unfolding part_chain new_page
  from_fresh p ps g d (fp, fs) room =
      let (gp, gs) =
        All-parts (Good G F small i split_bucket buddy_bucket power) p.slots (records ps) g in
      let (dp, ds, apart) = Distinct-parts p.slots (records ps) d in
      let a =
        part_slots_lem G F small i split_bucket buddy_bucket power p.slots fresh gp dp
          (Absent-nil p.slots) (Absent-nil p.slots) (new_page-Fits G false split_bucket room, tt)
          (new_page-Fits G false buddy_bucket room, tt) in
      let c =
        part_chain_lem ps (a.left, a.right) gs ds
          (Absent-grown (stays G F small i split_bucket buddy_bucket power) fresh.0 a.left p ps
            a.lefts.kept apart (Absent-nil (records ps)))
          (Absent-grown (moves G F small i split_bucket buddy_bucket power) fresh.1 a.right p ps
            a.rights.kept apart (Absent-nil (records ps)))
          fs a.lefts.fits a.rights.fits in
      let fill₁ = select-fill G (stays G F small i split_bucket buddy_bucket power) p.slots in
      let fill₂ = select-fill G (moves G F small i split_bucket buddy_bucket power) p.slots in
      let page = page_fill p fp in
      let n : size a.left ≡ 1 = (a.lefts.same (omega (arith, fill₁, page))).0 in
      let m : size a.right ≡ 1 = (a.rights.same (omega (arith, fill₂, page))).0 in
      record {
        left = c.left;
        right = c.right;
        run =
            ap (λ (r : Run (Pages × Pages)). r >>= part_chain G F i split_bucket buddy_bucket ps)
              a.run
            ∙ c.run;
        lefts =
            Grown-cons (stays G F small i split_bucket buddy_bucket power) fresh.0 a.left c.left p
              ps (length (p ∷ ps)) a.lefts.kept
              (looser (stays G F small i split_bucket buddy_bucket power) a.left c.left ps
                (size a.left + length ps) (length (p ∷ ps)) (omega (arith, n)) c.lefts);
        rights =
            Grown-cons (moves G F small i split_bucket buddy_bucket power) fresh.1 a.right c.right p
              ps (length (p ∷ ps)) a.rights.kept
              (looser (moves G F small i split_bucket buddy_bucket power) a.right c.right ps
                (size a.right + length ps) (length (p ∷ ps)) (omega (arith, m)) c.rights);
      }
