-- ===== src/TwoTree/Scan/Filled.antt =====
-- backend/twotree/ConcurrentTwoBTree.hpp: a scan buffer that is filled from its tree, and what the tree has
-- after the entries of the buffer.
use tree.Prelude.{
  either, ℕ, zero, suc, ◌+◌, ◌<◌, ◌≡◌, inl, inr, Bool, true, false, some, List, [], ◌∷◌, ◌++◌, leb,
  ltb, arith, refl, sym, ap, subst, ◌∙◌, Bool-cases, if◌then◌else◌, length, take, drop,
  length-append, length-take, length-take-le, length-drop, Run, ok, u64_mod,
}
use mathlib.Core.List.{append-nil, append_assoc}
use tree.TwoTree.Scan.{Buffer, len, scan_buffer_size, fill_entries, fill_scan_buffer}
use tree.TwoTree.Scan.Merged.{last_of, last_key}

module _ {P V : Type 0} (read : V → Run P) where
  -- The callback reads these entries as that list; no key is the last one of 64 bits.
  abbrev pub Readable : List (ℕ × V) → List (ℕ × P) → Type 0
  Readable [] [] = Unit
  Readable ((k, v) ∷ es) ((j, p) ∷ l) =
      (k ≡ j) × (read v ≡ ok p) × (suc k < u64_mod) × Readable es l
  Readable [] (x ∷ l) = ⊥
  Readable (e ∷ es) [] = ⊥

  take-nil : (n : ℕ) → take {A = ℕ × P} n [] ≡ []
  take-nil zero = refl
  take-nil (suc n) = refl

  abbrev added : Buffer P → ℕ × P → Buffer P
  added b e = record b { rest = b.rest ++ (e ∷ []) }

  len-added : (b : Buffer P) (e : ℕ × P) → len (added b e) ≡ suc (len b)
  len-added b e = omega (arith, length-append b.rest (e ∷ []))

  fill_last :
      (k : ℕ) (v : V) (es : List (ℕ × V)) (b : Buffer P) (p : P)
      → read v ≡ ok p
      → suc (len b) ≡ scan_buffer_size
      → fill_entries read ((k, v) ∷ es) b ≡ ok (added b (k, p))
  unfolding fill_entries
  fill_last k v es b p value full = rw value (
      either (λ w. w ≡ ok (added b (k, p))) (leb scan_buffer_size (len (added b (k, p)))) _ _
        (λ q. refl) (λ q. absurd (ground (arith, q, full, len-added b (k, p)))))

  fill_next :
      (k : ℕ) (v : V) (es : List (ℕ × V)) (b : Buffer P) (p : P)
      → read v ≡ ok p
      → suc (len b) < scan_buffer_size
      → fill_entries read ((k, v) ∷ es) b ≡ fill_entries read es (added b (k, p))
  unfolding fill_entries
  fill_next k v es b p value room = rw value (
      either (λ w. w ≡ fill_entries read es (added b (k, p)))
        (leb scan_buffer_size (len (added b (k, p)))) _ _
        (λ q. absurd (ground (arith, q, room, len-added b (k, p)))) (λ q. refl))

  fill_entries_lem :
      (room : ℕ) (es : List (ℕ × V)) (l : List (ℕ × P)) (b : Buffer P)
      → Readable es l
      → len b + suc room ≡ scan_buffer_size
      → fill_entries read es b ≡ ok (record b { rest = b.rest ++ take (suc room) l })
  unfolding fill_entries
  fill_entries_lem room [] [] b r e = ap (λ l. ok (record b { rest = l })) (sym (append-nil b.rest))
  fill_entries_lem room [] (x ∷ l) b r e = absurd r
  fill_entries_lem room (x ∷ es) [] b r e = absurd r
  fill_entries_lem zero ((k, v) ∷ es) ((j, p) ∷ l) b (same, value, small, r) e =
      fill_last k v es b p value (omega arith) ∙ ap (λ i. ok (added b (i, p))) same
  fill_entries_lem (suc room) ((k, v) ∷ es) ((j, p) ∷ l) b (same, value, small, r) e =
      fill_next k v es b p value (omega arith)
      ∙ fill_entries_lem room es l (added b (k, p)) r (omega (arith, len-added b (k, p)))
      ∙ ap (λ m. ok (record b { rest = m })) (append_assoc b.rest ((k, p) ∷ []) (take (suc room) l))
      ∙ ap (λ i. ok (record b { rest = b.rest ++ ((i, p) ∷ take (suc room) l) })) same

  -- Where the list has an `n`th entry, the entries part after it.
  pub record Parted (es : List (ℕ × V)) (l : List (ℕ × P)) (n : ℕ) : Type 0 where
    pub key : ℕ
    pub value : V
    pub before : List (ℕ × V)
    pub after : List (ℕ × V)
    pub parts : es ≡ before ++ ((key, value) ∷ after)
    pub readable : Readable after (drop (suc n) l)
    pub small : suc key < u64_mod
    pub last : (consumed : List (ℕ × P)) → last_of consumed (take (suc n) l) ≡ some key

  pub part :
      (n : ℕ) (es : List (ℕ × V)) (l : List (ℕ × P)) → n < length l → Readable es l → Parted es l n
  part n [] [] h r = absurd (omega arith)
  part n [] (x ∷ l) h r = absurd r
  part n (x ∷ es) [] h r = absurd r
  part zero ((k, v) ∷ es) ((j, p) ∷ l) h (same, value, small, r) = record {
    key = k;
    value = v;
    before = [];
    after = es;
    parts = refl;
    readable = r;
    small = small;
    last = λ consumed. ap some (sym same);
  }
  part (suc n) ((k, v) ∷ es) ((j, p) ∷ l) h (same, value, small, r) =
      let q = part n es l (omega arith) r in
      record {
        key = q.key;
        value = q.value;
        before = (k, v) ∷ q.before;
        after = q.after;
        parts = ap (λ l. (k, v) ∷ l) q.parts;
        readable = q.readable;
        small = q.small;
        last = λ consumed. q.last ((j, p) ∷ consumed);
      }

  pub nil_of_length : (l : List (ℕ × P)) → length l ≡ 0 → l ≡ []
  nil_of_length [] e = refl
  nil_of_length (x ∷ l) e = absurd (omega arith)

  abbrev pub fresh : Buffer P
  fresh = record { consumed = []; rest = []; tree_end = false }

  -- The buffer after a fill from a tree that shows `l`.
  abbrev pub filled : List (ℕ × P) → Buffer P
  filled l = record {
    consumed = [];
    rest = take 8 l;
    tree_end = ltb (length (take 8 l)) scan_buffer_size;
  }

  abbrev marked : List (ℕ × P) → Bool → Buffer P
  marked r full = record { consumed = []; rest = r; tree_end = full }

  mark_end :
      (r : List (ℕ × P)) (full : Bool)
      → (if full then marked r true else marked r false) ≡ marked r full
  mark_end r true = refl
  mark_end r false = refl

  module _ (scan : ℕ → List (ℕ × V)) where
    pub fill_fresh :
        (start : ℕ) (l : List (ℕ × P))
        → Readable (scan start) l
        → fill_scan_buffer read scan start fresh ≡ ok (filled l)
    unfolding fill_scan_buffer
    fill_fresh start l r = rw (fill_entries_lem 7 (scan start) l fresh r refl) (
        ap ok (mark_end (take 8 l) (ltb (0 + length (take 8 l)) scan_buffer_size))
        ∙ ap (λ n. ok (marked (take 8 l) (ltb n scan_buffer_size))) (omega arith))

    -- The list `X` is what the tree has after the entries of the buffer.
    pub record Fed (b : Buffer P) (X : List (ℕ × P)) : Type 0 where
      pub at_end : b.tree_end ≡ true → X ≡ []
      pub more :
          b.tree_end ≡ false
          → (k : ℕ) × (last_key b ≡ some k) × (suc k < u64_mod) × Readable (scan (suc k)) X

    module _
        (continues : (low k : ℕ) (v : V) (before after : List (ℕ × V))
          → scan low ≡ before ++ ((k, v) ∷ after)
          → scan (suc k) ≡ after) where
      pub full_length :
          (l : List (ℕ × P)) → ltb (length (take 8 l)) scan_buffer_size ≡ false → 7 < length l
      full_length l e = ground (arith, length-take-le 8 l, e)

      pub short_drop :
          (l : List (ℕ × P)) → ltb (length (take 8 l)) scan_buffer_size ≡ true → drop 8 l ≡ []
      short_drop l e = elim (Bool-cases (leb 8 (length l))) [
        | inl a ↦ absurd (ground (arith, length-take 8 l, e, a))
        | inr a ↦ nil_of_length (drop 8 l) (ground (arith, length-drop 8 l, a))
      ]

      pub filled-Fed :
          (start : ℕ) (l : List (ℕ × P)) → Readable (scan start) l → Fed (filled l) (drop 8 l)
      filled-Fed start l r = record {
        at_end = short_drop l;
        more = λ e.
            let q = part 7 (scan start) l (full_length l e) r in
            (
              q.key,
              q.last [],
              q.small,
              subst (λ es. Readable es (drop 8 l))
                  (sym (continues start q.key q.value q.before q.after q.parts)) q.readable,
            );
      }
