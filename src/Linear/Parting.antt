-- ===== src/Linear/Parting.antt =====
-- backend/leanstore/storage/hashing/LinearHashing.cpp: the loops of `split` that part the records of a chain.
use tree.Prelude.{
  ℕ, ◌+◌, ◌*◌, ◌%◌, ◌^◌, ◌<◌, ◌≤◌, ◌≡◌, ◌==◌, Bool, true, false, not, List, [], ◌∷◌, ◌++◌,
  if◌then◌else◌, ltb, arith, refl, sym, ap, subst, ◌∙◌, Run, ok, fault, check, ◌>>=◌, ◌>>◌, inl,
  inr, Bool-cases, if_true, if_false, ==_refl,
}
use tree.Linear.Placing.{records}
use tree.Linear.Page.{Geometry, Slot}
use tree.Linear.Fitting.{Fits, fill}
use tree.Linear.Table.{Functions, initial_buckets, power2, hash_bucket}
use tree.Linear.Split.{Pages, pages, place, part_slot, part_slots}
use tree.Linear.Apart.{Distinct, Absent, Absent-snoc}
use tree.Linear.Placing.{All, Whole, Placed, nothing-Placed, Placed-cons, place_lem}

abbrev pub select : {A : Type 0} → (A → Bool) → List A → List A
select f [] = []
select f (x ∷ l) = if f x then x ∷ select f l else select f l

pub select-append :
    {A : Type 0} (f : A → Bool) (l m : List A) → select f (l ++ m) ≡ select f l ++ select f m
select-append f [] m = refl
select-append f (x ∷ l) m = ground (arith, select-append f l m)

module _ (G : Geometry) where
  pub select-fill : (f : Slot → Bool) (l : List Slot) → fill G (select f l) ≤ fill G l
  select-fill f [] = omega arith
  select-fill f (s ∷ l) = ground (arith, select-fill f l)

-- The bucket of a key when the table has `2 ^ i` times the first buckets.
abbrev pub bucket_at : Functions → ℕ → List ℕ → ℕ
bucket_at F i key = F.hash_func key % (2 ^ i * initial_buckets)

pub hash_bucket-run :
    (F : Functions) (key : List ℕ) (i : ℕ) → i < 16 → hash_bucket F key i ≡ ok (bucket_at F i key)
unfolding hash_bucket power2
hash_bucket-run F key i h =
    ap (λ (r : Run ℕ). r >>= λ m. ok (F.hash_func key % (m * initial_buckets)))
      (if_true (ltb i 16) (ok (2 ^ i)) fault (ground (arith, h)))

module _ (G : Geometry) (F : Functions) (small : G.page_bytes < 2 ^ 15)
    (i split_bucket buddy_bucket : ℕ) (power : i + 1 < 16) where
  abbrev pub stays : Slot → Bool
  stays s = bucket_at F (i + 1) s.key == split_bucket

  abbrev pub moves : Slot → Bool
  moves s = not (stays s)

  -- A record of the bucket to split, which stays or goes to the new bucket.
  pub record Good (s : Slot) : Type 0 where
    pub whole : Whole G F s
    pub original : bucket_at F i s.key ≡ split_bucket
    pub target : stays s ≡ false → bucket_at F (i + 1) s.key ≡ buddy_bucket

  abbrev parted : Slot → Pages × Pages → ℕ → ℕ → Run (Pages × Pages)
  parted s v original_bucket target_bucket =
      check (original_bucket == split_bucket)
      >> (if target_bucket == split_bucket
          then (place G F split_bucket v.0 s >>= λ l. ok (l, v.1))
          else check (target_bucket == buddy_bucket)
            >> (place G F buddy_bucket v.1 s >>= λ r. ok (v.0, r)))

  part_slot-run :
      (s : Slot) (v : Pages × Pages)
      → Good s
      → part_slot G F i split_bucket buddy_bucket s v
        ≡ parted s v split_bucket (bucket_at F (i + 1) s.key)
  unfolding part_slot
  part_slot-run s v g =
      ap (λ r. r >>= λ o. hash_bucket F s.key (i + 1) >>= λ t. parted s v o t)
        (hash_bucket-run F s.key i (omega (arith, power)))
      ∙ ap (λ r. r >>= λ t. parted s v (bucket_at F i s.key) t)
          (hash_bucket-run F s.key (i + 1) power)
      ∙ ap (λ o. parted s v o (bucket_at F (i + 1) s.key)) g.original

  -- The rest, from where the buckets of the record are known.
  abbrev placed : Slot → Pages × Pages → Run (Pages × Pages)
  placed s v =
      if stays s
      then (place G F split_bucket v.0 s >>= λ l. ok (l, v.1))
      else check (bucket_at F (i + 1) s.key == buddy_bucket)
        >> (place G F buddy_bucket v.1 s >>= λ r. ok (v.0, r))

  placed-run :
      (s : Slot) (v : Pages × Pages)
      → Good s
      → part_slot G F i split_bucket buddy_bucket s v ≡ placed s v
  placed-run s v g = part_slot-run s v g ∙ ap (λ b. check b >> placed s v) (==_refl split_bucket)

  part_left :
      (s : Slot) (v : Pages × Pages) (w : Pages)
      → Good s
      → stays s ≡ true
      → place G F split_bucket v.0 s ≡ ok w
      → part_slot G F i split_bucket buddy_bucket s v ≡ ok (w, v.1)
  part_left s v w g e run =
      placed-run s v g
      ∙ if_true (stays s) _ _ e
      ∙ ap (λ (r : Run Pages). r >>= λ l. ok (l, v.1)) run

  part_right :
      (s : Slot) (v : Pages × Pages) (w : Pages)
      → Good s
      → stays s ≡ false
      → place G F buddy_bucket v.1 s ≡ ok w
      → part_slot G F i split_bucket buddy_bucket s v ≡ ok (v.0, w)
  part_right s v w g e run =
      let there : (bucket_at F (i + 1) s.key == buddy_bucket) ≡ true = ground (arith, g.target e) in
      placed-run s v g
      ∙ if_false (stays s) (place G F split_bucket v.0 s >>= λ l. ok (l, v.1)) _ e
      ∙ ap (λ b. check b >> (place G F buddy_bucket v.1 s >>= λ r. ok (v.0, r))) there
      ∙ ap (λ (r : Run Pages). r >>= λ r. ok (v.0, r)) run

  -- The record of the two vectors after some records were parted.
  pub record Parted (v : Pages × Pages) (l : List Slot) (r : Run (Pages × Pages)) : Type 0 where
    pub left : Pages
    pub right : Pages
    pub run : r ≡ ok (left, right)
    pub lefts : Placed G F v.0 (select stays l) left
    pub rights : Placed G F v.1 (select moves l) right

  pub part_slots_lem :
      (l : List Slot) (v : Pages × Pages)
      → All Good l
      → Distinct l
      → Absent (records (pages v.0)) l
      → Absent (records (pages v.1)) l
      → All (Fits G) (pages v.0)
      → All (Fits G) (pages v.1)
      → Parted v l (part_slots G F i split_bucket buddy_bucket l v)
  unfolding part_slots
  part_slots_lem [] v g d a b f h = record {
    left = v.0;
    right = v.1;
    run = refl;
    lefts = nothing-Placed G F v.0 f;
    rights = nothing-Placed G F v.1 h;
  }
  part_slots_lem (s ∷ l) v (g, gs) (new, d) (a, left) (b, right) f h =
      let rest = part_slots G F i split_bucket buddy_bucket l in
      elim (Bool-cases (stays s)) [
        | inl e ↦
            let (w, run, step) = place_lem G F small split_bucket v.0 s g.whole f a in
            let apart =
              subst (λ r. Absent r l) (sym step.kept)
                (Absent-snoc (records (pages v.0)) s l new left) in
            let p = part_slots_lem l (w, v.1) gs d apart right step.fits h in
            record {
              left = p.left;
              right = p.right;
              run = ap (λ (r : Run (Pages × Pages)). r >>= rest) (part_left s v w g e run) ∙ p.run;
              lefts =
                  subst (λ m. Placed G F v.0 m p.left)
                    (sym (if_true (stays s) (s ∷ select stays l) (select stays l) e))
                    (Placed-cons G F v.0 w p.left s (select stays l) step p.lefts);
              rights =
                  subst (λ m. Placed G F v.1 m p.right)
                    (sym (if_false (moves s) (s ∷ select moves l) (select moves l) (ap not e)))
                    p.rights;
            }
        | inr e ↦
            let (w, run, step) = place_lem G F small buddy_bucket v.1 s g.whole h b in
            let apart =
              subst (λ r. Absent r l) (sym step.kept)
                (Absent-snoc (records (pages v.1)) s l new right) in
            let p = part_slots_lem l (v.0, w) gs d left apart f step.fits in
            record {
              left = p.left;
              right = p.right;
              run = ap (λ (r : Run (Pages × Pages)). r >>= rest) (part_right s v w g e run) ∙ p.run;
              lefts =
                  subst (λ m. Placed G F v.0 m p.left)
                    (sym (if_false (stays s) (s ∷ select stays l) (select stays l) e)) p.lefts;
              rights =
                  subst (λ m. Placed G F v.1 m p.right)
                    (sym (if_true (moves s) (s ∷ select moves l) (select moves l) (ap not e)))
                    (Placed-cons G F v.1 w p.right s (select moves l) step p.rights);
            }
      ]
