-- ===== src/Linear/Merging.antt =====
-- backend/leanstore/storage/hashing/LinearHashing.cpp: the pages that `remove` and `merge_chain` leave of a chain.
use tree.Prelude.{
  ℕ, ◌/◌, ◌^◌, ◌<◌, ◌≡◌, ◌||◌, ◌&&◌, ◌==◌, not, Bool, true, false, Option, none, some, is_some,
  List, [], ◌∷◌, ◌++◌, leb, ltb, length, arith, refl, sym, ap, subst, ◌∙◌, inl, inr, Bool-cases,
  if_true, if_false, either_if,
}
use mathlib.Core.List.{append_assoc}
use tree.Linear.Search.{find_record, find_record-append}
use tree.Linear.Page.{
  Geometry, Page, find_from, heap_bytes, slot_at, find, remove_slot, has_enough_space_for,
  space_used_for_data, request_space_for, copy_key_value_range, free_space,
  free_space_after_compaction, compactify,
}
use tree.Linear.Fitting.{Fits, copy_lem, compactify_lem}
use tree.Linear.Table.{Functions}
use tree.Linear.Placing.{records, All, All-parts, Whole}
use tree.Linear.Answers.{find_from_lem, nowhere, there}
use tree.Linear.Cutting.{without, without-append, find_from-Cut, remove_slot-Fits}
use tree.Linear.Remove.{Removed, remove_loop, remove_chain, merge_pages, merge_chain}

module _ (G : Geometry) (F : Functions) (small : G.page_bytes < 2 ^ 15) where
  record Merged (p q r : Page) : Type 0 where
    pub slots : r.slots ≡ p.slots ++ q.slots
    pub fits : Fits G r

  abbrev copied : Page → Bool × Page → Page
  copied q r = copy_key_value_range G r.1 q.slots

  merge_pages_lem :
      (p q : Page)
      → Fits G p
      → Fits G q
      → has_enough_space_for G p (space_used_for_data G q) ≡ true
      → Merged p q (merge_pages G F p q)
  unfolding merge_pages request_space_for has_enough_space_for space_used_for_data free_space
      free_space_after_compaction
  merge_pages_lem p q f g e =
      let n = space_used_for_data G q in
      elim (Bool-cases (leb n (free_space G p))) [
        | inl h ↦
            let c =
              copy_lem G p q.slots small f
                (ground (arith, h, small, f.apart, f.within, g.used, g.apart, g.within)) in
            subst (Merged p q)
              (sym (ap (copied q) (if_true (leb n (free_space G p)) (true, p) _ h)))
              (record { slots = c.slots; fits = c.fits })
        | inr h ↦
            let room : leb n (free_space_after_compaction G p) ≡ true = ground (arith, e, h) in
            let c = compactify_lem G p small f in
            let d = copy_lem G (compactify G p) q.slots small c.fits (
              ground (
                arith,
                room,
                small,
                c.offset,
                ap length c.slots,
                f.used,
                f.apart,
                f.within,
                g.used,
                g.apart,
                g.within,
              )) in
            subst (Merged p q)
              (sym (
                ap (copied q) (
                  if_false (leb n (free_space G p)) (true, p) _ h
                  ∙ if_true _ (true, compactify G p) _ room)))
              (record { slots = d.slots ∙ ap (λ l. l ++ q.slots) c.slots; fits = d.fits })
      ]

  -- A chain with the same records.
  pub record Shorter (ps qs : List Page) : Type 0 where
    pub kept : records qs ≡ records ps
    pub fits : All (Fits G) qs
    pub some_page : 0 < length ps → 0 < length qs

  pub merge_chain_lem : (ps : List Page) → All (Fits G) ps → Shorter ps (merge_chain G F ps)
  unfolding merge_chain
  merge_chain_lem [] f = record { kept = refl; fits = f; some_page = λ h. h }
  merge_chain_lem (p ∷ []) f = record { kept = refl; fits = f; some_page = λ h. h }
  merge_chain_lem (p ∷ q ∷ qs) (fp, (fq, fs)) =
      let rest = merge_chain_lem (q ∷ qs) (fq, fs) in
      let answer : Bool → Type 0 = λ o.
        Shorter (p ∷ q ∷ qs)
          (elim o [ true ↦ merge_pages G F p q ∷ qs | false ↦ p ∷ merge_chain G F (q ∷ qs) ]) in
      elim (Bool-cases (has_enough_space_for G p (space_used_for_data G q))) [
        | inl e ↦
            let m = merge_pages_lem p q fp fq e in
            subst answer (sym e) (record {
              kept = ap (λ l. l ++ records qs) m.slots ∙ append_assoc p.slots q.slots (records qs);
              fits = (m.fits, fs);
              some_page = λ h. omega arith;
            })
        | inr e ↦ subst answer (sym e) (record {
          kept = ap (λ l. p.slots ++ l) rest.kept;
          fits = (fp, rest.fits);
          some_page = λ h. omega arith;
        })
      ]

  module _ (key : List ℕ) where
    -- A chain without the first record with the key.
    pub record Taken (ps : List Page) (r : Removed) : Type 0 where
      pub found : r.found ≡ is_some (find_record key (records ps))
      pub kept : records r.pages ≡ without key (records ps)
      pub fits : All (Fits G) r.pages
      pub count : length r.pages ≡ length ps

    -- The page `p` before the pages `ps`, from what the search of `p` answers.
    abbrev step : Bool → Page → List Page → Option ℕ → Removed
    step m p ps o = elim o [
      | some n ↦ record {
        found = true;
        pages = remove_slot p n ∷ ps;
        bytes = heap_bytes (slot_at p n);
        try_merge = m;
      }
      | none ↦ let r = remove_loop G F m ps key in record r { pages = p ∷ r.pages }
    ]

    remove_loop_lem :
        (m : Bool) (ps : List Page)
        → All (Whole G F) (records ps)
        → All (Fits G) ps
        → Taken ps (remove_loop G F m ps key)
    unfolding remove_loop find remove_slot
    remove_loop_lem m [] w f = record { found = refl; kept = refl; fits = f; count = refl }
    remove_loop_lem m (p ∷ ps) w (f, fs) =
        let m' = m || ltb (G.page_bytes / 2) (free_space_after_compaction G p) in
        let (wp, ws) = All-parts (Whole G F) p.slots (records ps) w in
        let rest = remove_loop_lem m' ps ws fs in
        let both = find_record-append key p.slots (records ps) in
        let joined = without-append key p.slots (records ps) in
        let answer : Option ℕ → Type 0 = λ o. Taken (p ∷ ps) (step m' p ps o) in
        elim (find_from_lem G F 0 p.slots key wp) [
          | nowhere a r ↦ subst answer (sym a) (record {
            found = ground (arith, r, both, rest.found);
            kept = ap (λ l. p.slots ++ l) rest.kept ∙ ground (arith, r, joined);
            fits = (f, rest.fits);
            count = omega (arith, rest.count);
          })
          | there n a r ↦
              let c = find_from-Cut G F 0 n p.slots key wp a in
              let at : find_from F.fingerprint 0 p.slots key ≡ some n = a ∙ ap some (omega arith) in
              subst answer (sym at) (record {
                found = ground (arith, r, both);
                kept = ap (λ l. l ++ records ps) c.rest ∙ ground (arith, r, joined);
                fits = (remove_slot-Fits G F p n key small f c, fs);
                count = omega arith;
              })
        ]

    pub remove_chain_lem :
        (ps : List Page)
        → All (Whole G F) (records ps)
        → All (Fits G) ps
        → Taken ps (remove_chain G F ps key)
    unfolding remove_chain
    remove_chain_lem ps w f =
        let l = remove_loop_lem false ps w f in
        let r = remove_loop G F false ps key in
        either_if (Taken ps) (not r.found && length ps == 1) _ _
          (λ _. record { found = l.found; kept = l.kept; fits = l.fits; count = l.count }) (λ _. l)
