-- ===== src/Linear/Renewing.antt =====
-- backend/leanstore/storage/hashing/LinearHashing.cpp: the pages that `upsert` leaves of a chain.
use tree.Prelude.{
  ℕ, ◌+◌, ◌^◌, ◌<◌, ◌≤◌, ◌≡◌, ◌&&◌, ◌==◌, Bool, true, false, Option, none, some, List, [], ◌∷◌,
  ◌++◌, leb, length, modify_at, arith, refl, sym, ap, subst, ◌∙◌, Run, ok, check-true, ◌>>=◌,
}
use mathlib.Core.List.{append-nil}
use tree.Linear.Search.{find_record, find_record-append, same_bytes-eq}
use tree.Linear.Page.{
  Geometry, Slot, Page, no_slot, find_from, slot_at, same_bytes, find, can_insert, insert,
  heap_bytes,
}
use tree.Linear.Page as Node
use tree.Linear.Fitting.{Fits}
use tree.Linear.Table.{Functions}
use tree.Linear.Placing.{records, All, All-parts, Whole}
use tree.Linear.Access.{upsert_chain}
use tree.Linear.Answers.{find_from_lem, nowhere, there}
use tree.Linear.Cutting.{put, put-append, Cut, find_from-Cut}
use tree.Linear.Inserting.{slot, overflow_page_lem, placed_in}

module _ (G : Geometry) (F : Functions) (small : G.page_bytes < 2 ^ 15) (key payload : List ℕ)
    (fits : G.slots_offset + 8 + length key + length payload ≤ G.page_bytes) where
  -- A chain with the payload for the key.
  pub record Renewed (ps : List Page) (r : Run (List Page × ℕ)) : Type 0 where
    pub pages : List Page
    pub bytes : ℕ
    pub run : r ≡ ok (pages, bytes)
    pub all : All (Fits G) pages
    pub some_page : 0 < length pages
    pub kept : records pages ≡ put (slot G F small key payload fits) (records ps)

  abbrev written : Page → ℕ → Page
  written p n = record p { slots = modify_at n (λ s. record s { payload = payload }) p.slots }

  update-run :
      (p : Page) (n : ℕ)
      → Cut key p.slots n
      → length payload ≡ length (slot_at p n).payload
      → Node.update p n key payload ≡ ok (written p n)
  unfolding Node.update
  update-run p n c h =
      let same = ap length (same_bytes-eq key (slot_at p n).key c.same) in
      check-true (length key == length (slot_at p n).key) _ (ground (arith, same))
      ∙ check-true (length payload == length (slot_at p n).payload) _ (ground (arith, h))
      ∙ check-true (same_bytes key (slot_at p n).key) (ok (written p n)) c.same

  written-Fits :
      (p : Page) (n : ℕ)
      → Fits G p
      → Cut key p.slots n
      → length payload ≡ length (slot_at p n).payload
      → Fits G (written p n)
  written-Fits p n f c h =
      let (w, l) = c.weight payload h in
      record {
        used = f.used ∙ sym w;
        apart = omega (arith, f.apart, l);
        within = omega (arith, f.within, w);
      }

  abbrev new : Slot
  new = slot G F small key payload fits

  abbrev last : ℕ → Page → List Page → Bool → Run (List Page × ℕ)
  last bucket p ps o = elim o [
    | true ↦ insert G F.fingerprint p key payload >>= λ q. ok (q ∷ ps, 0)
    | false ↦ upsert_chain G F bucket key payload ps >>= λ r. ok (p ∷ r.0, r.1)
  ]

  abbrev first : ℕ → Page → List Page → Option ℕ → Run (List Page × ℕ)
  first bucket p ps o = elim o [
    | some n ↦ Node.update p n key payload >>= λ q. ok (q ∷ ps, heap_bytes (slot_at p n))
    | none ↦ last bucket p ps (leb (length ps) 0 && can_insert G p (length key) (length payload))
  ]

  -- The page has the key.
  Renewed-here :
      (bucket : ℕ) (p : Page) (ps : List Page) (n : ℕ)
      → All (Fits G) (p ∷ ps)
      → Cut key p.slots n
      → ((v : List ℕ) → find_record key (records (p ∷ ps)) ≡ some v → length payload ≡ length v)
      → Renewed (p ∷ ps) (first bucket p ps (some n))
  Renewed-here bucket p ps n (f, fs) c same =
      let joined = put-append new p.slots (records ps) in
      let seen : find_record key (p.slots ++ records ps) ≡ some (slot_at p n).payload =
        ground (arith, find_record-append key p.slots (records ps), c.shown) in
      let h = same (slot_at p n).payload seen in
      record {
        pages = written p n ∷ ps;
        bytes = heap_bytes (slot_at p n);
        run =
            ap (λ (r : Run Page). r >>= λ q. ok (q ∷ ps, heap_bytes (slot_at p n)))
              (update-run p n c h);
        all = (written-Fits p n f c h, fs);
        some_page = omega arith;
        kept =
            ap (λ l. l ++ records ps) (c.changed (F.fingerprint key) payload)
            ∙ ground (arith, joined, c.shown);
      }

  -- It has not, and is the last page with room, or the search goes on.
  Renewed-behind :
      (bucket : ℕ) (p : Page) (ps : List Page)
      → All (Fits G) (p ∷ ps)
      → find_record key p.slots ≡ none
      → Renewed ps (upsert_chain G F bucket key payload ps)
      → (o : Bool) → (leb (length ps) 0 && can_insert G p (length key) (length payload)) ≡ o
      → Renewed (p ∷ ps) (last bucket p ps o)
  Renewed-behind bucket p [] f e rest true h =
      let room : can_insert G p (length key) (length payload) ≡ true = ground (arith, h) in
      let (q, run, s, all, among) = placed_in G F small key payload fits p [] f room e in
      let joined = put-append new p.slots [] in
      record {
        pages = q ∷ [];
        bytes = 0;
        run = ap (λ (r : Run Page). r >>= λ q. ok (q ∷ [], 0)) run;
        all = all;
        some_page = omega arith;
        kept = ap (λ l. l ++ []) s ∙ append-nil (p.slots ++ (new ∷ [])) ∙ ground (arith, joined, e);
      }
  Renewed-behind bucket p (o ∷ ps) f e rest true h = absurd (ground (arith, h))
  Renewed-behind bucket p ps f e rest false h =
      let joined = put-append new p.slots (records ps) in
      record {
        pages = p ∷ rest.pages;
        bytes = rest.bytes;
        run = ap (λ (r : Run (List Page × ℕ)). r >>= λ r. ok (p ∷ r.0, r.1)) rest.run;
        all = (f.0, rest.all);
        some_page = omega arith;
        kept = ap (λ l. p.slots ++ l) rest.kept ∙ ground (arith, joined, e);
      }

  pub upsert_chain_lem :
      (bucket : ℕ) (ps : List Page)
      → All (Fits G) ps
      → All (Whole G F) (records ps)
      → ((v : List ℕ) → find_record key (records ps) ≡ some v → length payload ≡ length v)
      → Renewed ps (upsert_chain G F bucket key payload ps)
  unfolding upsert_chain find
  upsert_chain_lem bucket [] f w same =
      let (q, run, f, s) = overflow_page_lem G F small key payload fits bucket in
      record {
        pages = q ∷ [];
        bytes = 0;
        run = ap (λ (r : Run Page). r >>= λ q. ok (q ∷ [], 0)) run;
        all = (f, tt);
        some_page = omega arith;
        kept = ap (λ l. l ++ []) s;
      }
  upsert_chain_lem bucket (p ∷ ps) (f, fs) w same =
      let (wp, ws) = All-parts (Whole G F) p.slots (records ps) w in
      let joined = find_record-append key p.slots (records ps) in
      elim (find_from_lem G F 0 p.slots key wp) [
        | nowhere a r ↦
            subst (λ o. Renewed (p ∷ ps) (first bucket p ps o)) (sym a)
              (Renewed-behind bucket p ps (f, fs) r
                (upsert_chain_lem bucket ps fs ws (λ v e. same v (ground (arith, joined, r, e))))
                (leb (length ps) 0 && can_insert G p (length key) (length payload)) refl)
        | there n a r ↦
            let c = find_from-Cut G F 0 n p.slots key wp a in
            let at : find_from F.fingerprint 0 p.slots key ≡ some n = a ∙ ap some (omega arith) in
            subst (λ o. Renewed (p ∷ ps) (first bucket p ps o)) (sym at)
              (Renewed-here bucket p ps n (f, fs) c same)
      ]
