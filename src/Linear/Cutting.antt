-- ===== src/Linear/Cutting.antt =====
-- backend/leanstore/storage/hashing/LinearHashing.cpp: the first record with a key, taken out of a list of records.
use tree.Prelude.{
  ℕ, suc, ◌+◌, ◌^◌, ◌<◌, ◌≡◌, true, false, none, some, List, [], ◌∷◌, ◌++◌, if◌then◌else◌, length,
  get_or, modify_at, remove_at, arith, refl, sym, ap, subst, ◌∙◌, inl, inr, Bool-cases, if_true,
  if_false,
}
use tree.Linear.Search.{same_bytes_sym}
use tree.Linear.Apart.{Distinct}
use tree.Linear.Search.{cmp_keys-same, find_record, same_bytes-eq}
use tree.Linear.Page.{Geometry, Slot, Page, no_slot, heap_bytes, same_bytes, find_from, remove_slot}
use tree.Linear.Fitting.{Fits, heap_sum}
use tree.Linear.Table.{Functions}
use tree.Linear.Placing.{All, Whole}
use tree.Linear.Answers.{find_from_lem, nowhere, there}

-- The records without the first that has the key.
abbrev pub without : List ℕ → List Slot → List Slot
without key [] = []
without key (s ∷ l) = if same_bytes key s.key then l else s ∷ without key l

pub without-append :
    (key : List ℕ) (l m : List Slot)
    → without key (l ++ m) ≡ elim (find_record key l) as (λ _. List Slot) [
      | none ↦ l ++ without key m
      | some v ↦ without key l ++ m
    ]
without-append key [] m = refl
without-append key (s ∷ l) m = ground (arith, without-append key l m)

pub find_record-without :
    (k key : List ℕ) (l : List Slot)
    → same_bytes k key ≡ false
    → find_record k (without key l) ≡ find_record k l
find_record-without k key [] h = refl
find_record-without k key (s ∷ l) h = elim (Bool-cases (same_bytes key s.key)) [
  | inl e ↦
      let other : same_bytes k s.key ≡ false =
        ap (same_bytes k) (sym (same_bytes-eq key s.key e)) ∙ h in
      ground (arith, e, other)
  | inr e ↦ ground (arith, e, find_record-without k key l h)
]

pub All-without :
    (P : Slot → Type 0) (key : List ℕ) (l : List Slot) → All P l → All P (without key l)
All-without P key [] h = tt
All-without P key (s ∷ l) h = elim (Bool-cases (same_bytes key s.key)) [
  | inl e ↦ subst (All P) (sym (if_true (same_bytes key s.key) l (s ∷ without key l) e)) h.1
  | inr e ↦
      subst (All P) (sym (if_false (same_bytes key s.key) l (s ∷ without key l) e))
        (h.0, All-without P key l h.1)
]

none-without :
    (k key : List ℕ) (l : List Slot) → find_record k l ≡ none → find_record k (without key l) ≡ none
none-without k key [] h = refl
none-without k key (s ∷ l) h = elim (Bool-cases (same_bytes k s.key)) [
  | inl e ↦ absurd (ground (arith, h, e))
  | inr e ↦
      let rest : find_record k l ≡ none = ground (arith, h, e) in
      ground (arith, e, rest, none-without k key l rest)
]

pub Distinct-without : (key : List ℕ) (l : List Slot) → Distinct l → Distinct (without key l)
Distinct-without key [] d = tt
Distinct-without key (s ∷ l) d = elim (Bool-cases (same_bytes key s.key)) [
  | inl e ↦ subst Distinct (sym (if_true (same_bytes key s.key) l (s ∷ without key l) e)) d.1
  | inr e ↦
      subst Distinct (sym (if_false (same_bytes key s.key) l (s ∷ without key l) e))
        (none-without s.key key l d.0, Distinct-without key l d.1)
]

-- A key that does not stand twice is gone.
pub gone : (key : List ℕ) (l : List Slot) → Distinct l → find_record key (without key l) ≡ none
gone key [] d = refl
gone key (s ∷ l) d = elim (Bool-cases (same_bytes key s.key)) [
  | inl e ↦
      let k : find_record key l ≡ none =
        ap (λ x. find_record x l) (same_bytes-eq key s.key e) ∙ d.0 in
      ground (arith, e, k)
  | inr e ↦ ground (arith, e, gone key l d.1)
]

-- The records with the payload of `new` in the first that has its key, or with `new` behind them.
abbrev pub put : Slot → List Slot → List Slot
put new [] = new ∷ []
put new (s ∷ l) =
    if same_bytes new.key s.key then record s { payload = new.payload } ∷ l else s ∷ put new l

pub put-append :
    (new : Slot) (l m : List Slot)
    → put new (l ++ m) ≡ elim (find_record new.key l) as (λ _. List Slot) [
      | none ↦ l ++ put new m
      | some v ↦ put new l ++ m
    ]
put-append new [] m = refl
put-append new (s ∷ l) m = ground (arith, put-append new l m)

pub find_record-put :
    (k : List ℕ) (new : Slot) (l : List Slot)
    → find_record k (put new l)
      ≡ (if same_bytes k new.key then some new.payload else find_record k l)
find_record-put k new [] = refl
find_record-put k new (s ∷ l) = elim (Bool-cases (same_bytes new.key s.key)) [
  | inl e ↦
      let same : same_bytes k s.key ≡ same_bytes k new.key =
        ap (same_bytes k) (sym (same_bytes-eq new.key s.key e)) in
      ground (arith, e, same)
  | inr e ↦ elim (Bool-cases (same_bytes k new.key)) [
    | inl h ↦
        let other : same_bytes k s.key ≡ false =
          ap (λ x. same_bytes x s.key) (same_bytes-eq k new.key h) ∙ e in
        ground (arith, e, h, other, find_record-put k new l)
    | inr h ↦ ground (arith, e, h, find_record-put k new l)
  ]
]

pub All-put :
    (P : Slot → Type 0) (new : Slot) (l : List Slot)
    → P new
    → ((s : Slot) → P s → s.key ≡ new.key → P (record s { payload = new.payload }))
    → All P l
    → All P (put new l)
All-put P new [] n c h = (n, tt)
All-put P new (s ∷ l) n c h = elim (Bool-cases (same_bytes new.key s.key)) [
  | inl e ↦
      subst (All P)
        (sym (
          if_true (same_bytes new.key s.key) (record s { payload = new.payload } ∷ l)
            (s ∷ put new l) e))
        (c s h.0 (sym (same_bytes-eq new.key s.key e)), h.1)
  | inr e ↦
      subst (All P)
        (sym (
          if_false (same_bytes new.key s.key) (record s { payload = new.payload } ∷ l)
            (s ∷ put new l) e))
        (h.0, All-put P new l n c h.1)
]

pub Distinct-put : (new : Slot) (l : List Slot) → Distinct l → Distinct (put new l)
Distinct-put new [] d = (refl, tt)
Distinct-put new (s ∷ l) d = elim (Bool-cases (same_bytes new.key s.key)) [
  | inl e ↦
      subst Distinct
        (sym (
          if_true (same_bytes new.key s.key) (record s { payload = new.payload } ∷ l)
            (s ∷ put new l) e))
        d
  | inr e ↦
      let behind : find_record s.key (put new l) ≡ none =
        ground (arith, find_record-put s.key new l, same_bytes_sym s.key new.key, e, d.0) in
      subst Distinct
        (sym (
          if_false (same_bytes new.key s.key) (record s { payload = new.payload } ∷ l)
            (s ∷ put new l) e))
        (behind, Distinct-put new l d.1)
]

-- The slot `n` is the first with the key.
pub record Cut (key : List ℕ) (l : List Slot) (n : ℕ) : Type 0 where
  pub rest : remove_at n l ≡ without key l
  pub sum : heap_bytes (get_or l n no_slot) + heap_sum (remove_at n l) ≡ heap_sum l
  pub count : length (remove_at n l) + 1 ≡ length l
  pub same : same_bytes key (get_or l n no_slot).key ≡ true
  pub shown : find_record key l ≡ some (get_or l n no_slot).payload
  pub changed :
      (f : ℕ) (v : List ℕ)
      → modify_at n (λ s. record s { payload = v }) l
        ≡ put (record { fingerprint = f; key = key; payload = v }) l
  pub weight :
      (v : List ℕ)
      → length v ≡ length (get_or l n no_slot).payload
      → (heap_sum (modify_at n (λ s. record s { payload = v }) l) ≡ heap_sum l)
        × (length (modify_at n (λ s. record s { payload = v }) l) ≡ length l)

module _ (G : Geometry) (F : Functions) where
  pub find_from-Cut :
      (j n : ℕ) (l : List Slot) (key : List ℕ)
      → All (Whole G F) l
      → find_from F.fingerprint j l key ≡ some (j + n)
      → Cut key l n
  unfolding find_from
  find_from-Cut j n [] key h e = absurd (cc e)
  find_from-Cut j n (s ∷ l) key (w, h) e = elim (Bool-cases (same_bytes key s.key)) [
    | inl same ↦
        let print : s.fingerprint ≡ F.fingerprint key =
          w.fingerprint ∙ ap F.fingerprint (sym (same_bytes-eq key s.key same)) in
        let here : find_from F.fingerprint j (s ∷ l) key ≡ some j =
          ground (arith, print, cmp_keys-same key s.key, same) in
        let at : some j ≡ some (j + n) = sym here ∙ e in
        let zero_th : j ≡ j + n = cc at in
        let first : 0 ≡ n = omega (arith, zero_th) in
        subst (Cut key (s ∷ l)) first (record {
          rest = ground (arith, same);
          sum = omega arith;
          count = omega arith;
          same = same;
          shown = ground (arith, same);
          changed = λ f v. ground (arith, same);
          weight = λ v h. (omega (arith, h), omega arith);
        })
    | inr other ↦
        let skip : find_from F.fingerprint j (s ∷ l) key ≡ find_from F.fingerprint (suc j) l key =
          ground (arith, cmp_keys-same key s.key, other) in
        elim (find_from_lem G F (suc j) l key h) [
          | nowhere a r ↦ absurd (cc (skip, a, e))
          | there m a r ↦
              let at : some (suc j + m) ≡ some (j + n) = sym a ∙ sym skip ∙ e in
              let next : suc j + m ≡ j + n = cc at in
              let later : suc m ≡ n = omega (arith, next) in
              let c = find_from-Cut (suc j) m l key h a in
              subst (Cut key (s ∷ l)) later (record {
                rest = ground (arith, other, c.rest);
                sum = omega (arith, c.sum);
                count = omega (arith, c.count);
                same = c.same;
                shown = ground (arith, other, c.shown);
                changed = λ f v. ground (arith, other, c.changed f v);
                weight = λ v h. let (w, n) = c.weight v h in (omega (arith, w), omega (arith, n));
              })
        ]
  ]

  -- What the removal of a slot leaves of a page.
  pub remove_slot-Fits :
      (p : Page) (n : ℕ) (key : List ℕ)
      → G.page_bytes < 2 ^ 15
      → Fits G p
      → Cut key p.slots n
      → Fits G (remove_slot p n)
  unfolding remove_slot
  remove_slot-Fits p n key small f c = record {
    used = ground (arith, small, f.used, f.within, c.sum);
    apart = omega (arith, f.apart, c.count);
    within = omega (arith, f.within, c.sum);
  }
