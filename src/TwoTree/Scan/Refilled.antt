-- ===== src/TwoTree/Scan/Refilled.antt =====
-- backend/twotree/ConcurrentTwoBTree.hpp: a scan buffer, refilled again and again, shows its tree from the
-- start key on.
use tree.Prelude.{
  ℕ, suc, ◌+◌, ◌≤◌, ◌<◌, ◌≡◌, inl, inr, Bool, true, false, not, ◌&&◌, some, List, [], ◌∷◌, ◌++◌,
  ltb, arith, refl, sym, ap, ◌∙◌, Bool-cases, if◌then◌else◌, if_false, length, take, drop,
  take-append-drop, length-drop, Run, ok, add64, u64_mod,
}
use tree.TwoTree.Scan.{Buffer, is_nil, scan_buffer_size, fill_scan_buffer, refill}
use tree.TwoTree.Scan.Merged.{nil_of, last_of}
use tree.TwoTree.Scan.Filled.{
  Readable, Fed, fresh, filled, fill_fresh, filled-Fed, full_length, short_drop,
}

module _ {P V : Type 0} (read : V → Run P) (scan : ℕ → List (ℕ × V)) where
  module _
      (continues : (low k : ℕ) (v : V) (before after : List (ℕ × V))
        → scan low ≡ before ++ ((k, v) ∷ after)
        → scan (suc k) ≡ after) where
    -- What is left for the buffer to show, and a mark for the end that it has not met.
    abbrev pub weight : Buffer P → List (ℕ × P) → ℕ
    weight b X = length X + (if b.tree_end then 0 else 1)

    pub weight-filled : (l : List (ℕ × P)) → weight (filled read l) (drop 8 l) ≤ length l
    weight-filled l = elim (Bool-cases (ltb (length (take 8 l)) scan_buffer_size)) [
      | inl e ↦ ground (arith, e, ap length (short_drop read scan continues l e))
      | inr e ↦ ground (arith, e, full_length read scan continues l e, length-drop 8 l)
    ]

    -- The buffer after it was refilled where it had to be.
    pub record Refilled (b : Buffer P) (X : List (ℕ × P)) (b' : Buffer P) (X' : List (ℕ × P))
        : Type 0 where
      pub run : refill read scan b ≡ ok b'
      pub shows : b'.rest ++ X' ≡ b.rest ++ X
      pub fed : Fed read scan b' X'
      pub lighter : weight b' X' + (if is_nil b.rest && not b.tree_end then 1 else 0) ≤ weight b X

    refill_at :
        (consumed : List (ℕ × P)) (k : ℕ) (X : List (ℕ × P))
        → last_of consumed [] ≡ some k
        → suc k < u64_mod
        → Readable read (scan (suc k)) X
        → refill read scan (record { consumed = consumed; rest = []; tree_end = false })
          ≡ ok (filled read X)
    unfolding refill
    refill_at [] k X e small r = cc
    refill_at (x ∷ consumed) k X e small r =
        let next : add64 x.0 1 ≡ suc k = ground (arith, e, small) in
        ap (λ i. fill_scan_buffer read scan i (fresh read)) next ∙ fill_fresh read scan (suc k) X r

    to_refill_parts : (n e : Bool) → (n && not e) ≡ true → (n ≡ true) × (e ≡ false)
    to_refill_parts n e h = ground arith

    consumed_eta :
        (b : Buffer P)
        → b.rest ≡ []
        → b.tree_end ≡ false
        → b ≡ record { consumed = b.consumed; rest = []; tree_end = false }
    consumed_eta b r e = λ i. record { consumed = b.consumed; rest = r i; tree_end = e i }

    refilled_lighter :
        (b : Buffer P) (X : List (ℕ × P))
        → (is_nil b.rest && not b.tree_end) ≡ true
        → weight (filled read X) (drop 8 X) + (if is_nil b.rest && not b.tree_end then 1 else 0)
          ≤ weight b X
    refilled_lighter b X e = ground (
      arith,
      e,
      short_drop read scan continues X,
      full_length read scan continues X,
      length-drop 8 X,
    )

    pub refill-Refilled :
        (b : Buffer P) (X : List (ℕ × P))
        → Fed read scan b X
        → (b' : Buffer P) × (X' : List (ℕ × P)) × Refilled b X b' X'
    unfolding refill
    refill-Refilled b X f = elim (Bool-cases (is_nil b.rest && not b.tree_end)) [
      | inl e ↦
          let (nil, open_end) = to_refill_parts (is_nil b.rest) b.tree_end e in
          let empty = nil_of b.rest nil in
          let (k, last, small, r) = f.more open_end in
          (
            filled read X,
            drop 8 X,
            record {
              run =
                  ap (refill read scan) (consumed_eta b empty open_end)
                  ∙ refill_at b.consumed k X (sym (ap (last_of b.consumed) empty) ∙ last) small r;
              shows = take-append-drop 8 X ∙ sym (ap (λ l. l ++ X) empty);
              fed = filled-Fed read scan continues (suc k) X r;
              lighter = refilled_lighter b X e;
            },
          )
      | inr e ↦ (
        b,
        X,
        record {
          run = if_false _ _ _ e;
          shows = refl;
          fed = f;
          lighter = omega (arith, if_false {A = ℕ} (is_nil b.rest && not b.tree_end) 1 0 e);
        },
      )
    ]
