-- ===== src/Linear/Placing.antt =====
-- backend/leanstore/storage/hashing/LinearHashing.cpp: the records that a split puts in a vector of pages, in their
-- order, and how many pages they take.
use tree.Prelude.{
  none, ℕ, ◌+◌, ◌*◌, ◌^◌, ◌<◌, ◌≤◌, ◌≡◌, true, List, [], ◌∷◌, ◌++◌, leb, length, length-append,
  arith, refl, sym, ap, subst, ◌∙◌, Run, ok, check, ◌>>=◌, ◌>>◌, inl, inr, ◌⊎◌, Bool-cases, if_true,
  if_false,
}
use mathlib.Core.List.{append-nil, append_assoc}
use tree.Linear.Search.{find_record, find_record-append}
use tree.Linear.Page.{Geometry, Slot, Page, new_page, can_insert, insert, heap_bytes}
use tree.Linear.Fitting.{
  Fits, fill, heap_sum, heap_sum-append, can_insert-fill, new_page-Fits, new_slot, insert_lem,
}
use tree.Linear.Table.{Functions}
use tree.Linear.Split.{Pages, pages, size, place}

-- The records of a chain of pages, in their order.
abbrev pub records : List Page → List Slot
records [] = []
records (p ∷ ps) = p.slots ++ records ps

pub records-append : (l m : List Page) → records (l ++ m) ≡ records l ++ records m
records-append [] m = refl
records-append (p ∷ l) m =
    ap (λ r. p.slots ++ r) (records-append l m) ∙ sym (append_assoc p.slots (records l) (records m))

pub records-snoc : (l : List Page) (p : Page) → records (l ++ (p ∷ [])) ≡ records l ++ p.slots
records-snoc l p = records-append l (p ∷ []) ∙ ap (λ m. records l ++ m) (append-nil p.slots)

abbrev pub All : {A : Type 0} → (A → Type 0) → List A → Type 0
All P [] = Unit
All P (x ∷ l) = P x × All P l

pub All-parts : {A : Type 0} (P : A → Type 0) (l m : List A) → All P (l ++ m) → All P l × All P m
All-parts P [] m h = (tt, h)
All-parts P (x ∷ l) m h = let (a, b) = All-parts P l m h.1 in ((h.0, a), b)

pub All-append : {A : Type 0} (P : A → Type 0) (l m : List A) → All P l → All P m → All P (l ++ m)
All-append P [] m h k = k
All-append P (x ∷ l) m h k = (h.0, All-append P l m h.1 k)

module _ (G : Geometry) (F : Functions) where
  -- A record with its fingerprint that an empty page has room for.
  pub record Whole (s : Slot) : Type 0 where
    pub fingerprint : s.fingerprint ≡ F.fingerprint s.key
    pub fits : G.slots_offset + 8 + heap_bytes s ≤ G.page_bytes

  pub record Placed (v : Pages) (l : List Slot) (v' : Pages) : Type 0 where
    pub kept : records (pages v') ≡ records (pages v) ++ l
    pub fits : All (Fits G) (pages v')
    pub same :
        fill G (v.back.slots ++ l) ≤ G.page_bytes
        → (size v' ≡ size v) × (v'.back.slots ≡ v.back.slots ++ l)
    pub one_more : fill G l ≤ G.page_bytes → size v' ≤ size v + 1

  back-Fits : (l : List Page) (p : Page) → All (Fits G) (l ++ (p ∷ [])) → Fits G p
  back-Fits [] p h = h.0
  back-Fits (q ∷ l) p h = back-Fits l p h.1

  new_back :
      (l : List Page) (p q : Page)
      → All (Fits G) (l ++ (p ∷ []))
      → Fits G q
      → All (Fits G) (l ++ (q ∷ []))
  new_back [] p q h f = (f, tt)
  new_back (r ∷ l) p q h f = (h.0, new_back l p q h.1 f)

  pub nothing-Placed : (v : Pages) → All (Fits G) (pages v) → Placed v [] v
  nothing-Placed v h = record {
    kept = sym (append-nil (records (pages v)));
    fits = h;
    same = λ _. (refl, sym (append-nil v.back.slots));
    one_more = λ _. omega arith;
  }

  fill-append : (l m : List Slot) → fill G (l ++ m) ≡ fill G l + 8 * length m + heap_sum m
  fill-append l m = omega (arith, length-append l m, heap_sum-append l m)

  -- One record, in the last page if it has the room, or alone in a new one.
  pub record Step (v : Pages) (s : Slot) (v' : Pages) : Type 0 where
    pub kept : records (pages v') ≡ records (pages v) ++ (s ∷ [])
    pub fits : All (Fits G) (pages v')
    pub choice :
        ((size v' ≡ size v) × (v'.back.slots ≡ v.back.slots ++ (s ∷ [])))
        ⊎ ((G.page_bytes < fill G v.back.slots + 8 + heap_bytes s)
            × (size v' ≡ size v + 1)
            × (v'.back.slots ≡ s ∷ []))

  pub Placed-cons :
      (v v₁ v₂ : Pages) (s : Slot) (l : List Slot)
      → Step v s v₁
      → Placed v₁ l v₂
      → Placed v (s ∷ l) v₂
  Placed-cons v v₁ v₂ s l a b = record {
    kept = b.kept ∙ ap (λ m. m ++ l) a.kept ∙ append_assoc (records (pages v)) (s ∷ []) l;
    fits = b.fits;
    same = λ h.
        let f = fill-append v.back.slots (s ∷ l) in
        elim a.choice [
          | inl (n, e) ↦
              let whole : v₁.back.slots ++ l ≡ v.back.slots ++ (s ∷ l) =
                ap (λ m. m ++ l) e ∙ append_assoc v.back.slots (s ∷ []) l in
              let (n', e') = b.same (subst (λ m. fill G m ≤ G.page_bytes) (sym whole) h) in
              (n' ∙ n, e' ∙ whole)
          | inr (big, n, e) ↦ absurd (omega (arith, big, f, h))
        ];
    one_more = λ h. elim a.choice [
      | inl (n, e) ↦ omega (arith, n, b.one_more (omega (arith, h)))
      | inr (big, n, e) ↦
          let whole : v₁.back.slots ++ l ≡ s ∷ l = ap (λ m. m ++ l) e in
          let (n', _) = b.same (subst (λ m. fill G m ≤ G.page_bytes) (sym whole) h) in
          omega (arith, n, n')
    ];
  }

  module _ (small : G.page_bytes < 2 ^ 15) where
    inserted :
        (v : Pages) (s : Slot)
        → Whole s
        → All (Fits G) (pages v)
        → fill G v.back.slots + 8 + heap_bytes s ≤ G.page_bytes
        → find_record s.key v.back.slots ≡ none
        → (p : Page) × (insert G F.fingerprint v.back s.key s.payload ≡ ok p)
          × (p.slots ≡ v.back.slots ++ (s ∷ []))
          × Step v s (record v { back = p })
    inserted v s w h room absent =
        let (p, run, i) =
          insert_lem G F.fingerprint v.back s.key s.payload small (back-Fits v.full v.back h)
            (omega (arith, room)) absent in
        let same : new_slot G F.fingerprint s.key s.payload ≡ s =
          ap (λ f. record s { fingerprint = f }) (sym w.fingerprint) in
        let slots : p.slots ≡ v.back.slots ++ (s ∷ []) =
          i.slots ∙ ap (λ x. v.back.slots ++ (x ∷ [])) same in
        (
          p,
          run,
          slots,
          record {
            kept =
                records-snoc v.full p
                ∙ ap (λ m. records v.full ++ m) slots
                ∙ sym (append_assoc (records v.full) v.back.slots (s ∷ []))
                ∙ ap (λ m. m ++ (s ∷ [])) (sym (records-snoc v.full v.back));
            fits = new_back v.full v.back p h i.fits;
            choice = inl (refl, slots);
          },
        )

    -- What `place` does with the vector that has the room.
    abbrev filled : Slot → Pages → Run Pages
    filled s w =
        check (can_insert G w.back (length s.key) (length s.payload))
        >> (insert G F.fingerprint w.back s.key s.payload >>= λ p. ok (record w { back = p }))

    filled-run :
        (s : Slot) (w : Pages) (p : Page)
        → can_insert G w.back (length s.key) (length s.payload) ≡ true
        → insert G F.fingerprint w.back s.key s.payload ≡ ok p
        → filled s w ≡ ok (record w { back = p })
    filled-run s w p c run =
        ap
          (λ b.
            check b
            >> (insert G F.fingerprint w.back s.key s.payload >>= λ p. ok (record w { back = p })))
          c
        ∙ ap (λ (r : Run Page). r >>= λ p. ok (record w { back = p })) run

    has_room :
        (p : Page) (s : Slot)
        → Whole s
        → Fits G p
        → can_insert G p (length s.key) (length s.payload)
          ≡ leb (fill G p.slots + 8 + length s.key + length s.payload) G.page_bytes
    has_room p s w f =
        can_insert-fill G p (length s.key) (length s.payload) small f (omega (arith, w.fits, small))

    pub place_lem :
        (bucket : ℕ) (v : Pages) (s : Slot)
        → Whole s
        → All (Fits G) (pages v)
        → find_record s.key (records (pages v)) ≡ none
        → (v' : Pages) × (place G F bucket v s ≡ ok v') × Step v s v'
    unfolding place new_page
    place_lem bucket v s w h absent =
        let last : find_record s.key v.back.slots ≡ none = ground (
          arith,
          find_record-append s.key (records v.full) v.back.slots,
          ap (find_record s.key) (records-snoc v.full v.back),
          absent,
        ) in
        let fresh : Pages = record {
          full = v.full ++ (v.back ∷ []);
          back = new_page G true bucket;
        } in
        let c = can_insert G v.back (length s.key) (length s.payload) in
        let told = has_room v.back s w (back-Fits v.full v.back h) in
        elim (Bool-cases c) [
          | inl e ↦
              let (p, run, slots, step) = inserted v s w h (ground (arith, told, e)) last in
              (
                record v { back = p },
                ap (filled s) (if_true c v fresh e) ∙ filled-run s v p e run,
                step,
              )
          | inr e ↦
              let empty = new_page-Fits G true bucket (omega (arith, w.fits)) in
              let fits =
                All-append (Fits G) (v.full ++ (v.back ∷ [])) (fresh.back ∷ []) h (empty, tt) in
              let (p, run, slots, step) = inserted fresh s w fits (omega (arith, w.fits)) refl in
              let room : can_insert G fresh.back (length s.key) (length s.payload) ≡ true =
                has_room fresh.back s w empty ∙ ground (arith, w.fits) in
              (
                record fresh { back = p },
                ap (filled s) (if_false c v fresh e) ∙ filled-run s fresh p room run,
                record {
                  kept =
                      step.kept
                      ∙ ap (λ m. m ++ (s ∷ []))
                          (records-snoc (v.full ++ (v.back ∷ [])) fresh.back
                            ∙ append-nil (records (pages v)));
                  fits = step.fits;
                  choice = inr (
                    ground (arith, told, e),
                    omega (arith, length-append v.full (v.back ∷ [])),
                    slots,
                  );
                },
              )
        ]
