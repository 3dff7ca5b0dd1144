-- ===== src/Linear/Written.antt =====
-- backend/leanstore/storage/hashing/LinearHashing.cpp: the pages that a split writes back.
use tree.Prelude.{
  none, List, [], refl, ◌≡◌, ℕ, true, ℕ, ◌+◌, ◌-◌, ◌≤◌, ◌≡◌, Bool, true, List, [], ◌∷◌, ◌++◌, leb,
  length, arith, refl, sym, ap, subst, inl, inr, Bool-cases, if_true, if_false,
}
use tree.Linear.Page.{Slot}
use tree.Linear.Page.{Geometry, Page}
use tree.Linear.Fitting.{Fits}
use tree.Linear.Split.{write_split, write_buddy, guards, temp_nodes}
use tree.Linear.Placing.{records, All}
use tree.Linear.Page.{same_bytes}
use tree.Linear.Search.{find_record}
use tree.Linear.Apart.{Absent, Distinct}
use tree.Linear.Parting.{select}

pub All-select :
    {A : Type 0} (P Q : A → Type 0) (f : A → Bool) (l : List A)
    → ((x : A) → P x → f x ≡ true → Q x)
    → All P l
    → All Q (select f l)
All-select P Q f [] h a = tt
All-select P Q f (x ∷ l) h a = elim (Bool-cases (f x)) [
  | inl e ↦
      subst (All Q) (sym (if_true (f x) (x ∷ select f l) (select f l) e))
        (h x a.0 e, All-select P Q f l h a.1)
  | inr e ↦
      subst (All Q) (sym (if_false (f x) (x ∷ select f l) (select f l) e))
        (All-select P Q f l h a.1)
]

none-select :
    (f : Slot → Bool) (key : List ℕ) (l : List Slot)
    → find_record key l ≡ none
    → find_record key (select f l) ≡ none
none-select f key [] h = refl
none-select f key (s ∷ l) h = elim (Bool-cases (same_bytes key s.key)) [
  | inl e ↦ absurd (ground (arith, h, e))
  | inr e ↦
      let rest : find_record key l ≡ none = ground (arith, h, e) in
      ground (arith, e, none-select f key l rest)
]

pub Absent-select : (f : Slot → Bool) (r l : List Slot) → Absent r l → Absent (select f r) l
Absent-select f r [] a = tt
Absent-select f r (s ∷ l) a = (none-select f s.key r a.0, Absent-select f r l a.1)

pub Distinct-select : (f : Slot → Bool) (l : List Slot) → Distinct l → Distinct (select f l)
Distinct-select f [] d = tt
Distinct-select f (s ∷ l) d = elim (Bool-cases (f s)) [
  | inl e ↦
      subst Distinct (sym (if_true (f s) (s ∷ select f l) (select f l) e))
        (none-select f s.key l d.0, Distinct-select f l d.1)
  | inr e ↦
      subst Distinct (sym (if_false (f s) (s ∷ select f l) (select f l) e))
        (Distinct-select f l d.1)
]

pub All-map :
    {A : Type 0} (P Q : A → Type 0) (l : List A) → ((x : A) → P x → Q x) → All P l → All Q l
All-map P Q [] h a = tt
All-map P Q (x ∷ l) h a = (h x a.0, All-map P Q l h a.1)

pub guards_lem :
    (n l r : ℕ)
    → l ≤ n
    → n ≤ 8
    → l + r ≤ n + 2
    → (leb r (guards n l r - l) ≡ true) × (leb (guards n l r) temp_nodes ≡ true)
unfolding guards
guards_lem n l r h k e = (ground (arith, h, k, e), ground (arith, h, k, e))

module _ (G : Geometry) where
  pub refit :
      (p : Page) (b : ℕ) (o : Bool) → Fits G p → Fits G (record p { bucket = b; is_overflow = o })
  refit p b o f = record { used = f.used; apart = f.apart; within = f.within }

  pub write_split-Fits : (old ps : List Page) → All (Fits G) ps → All (Fits G) (write_split old ps)
  write_split-Fits old [] h = tt
  write_split-Fits [] (p ∷ ps) h = tt
  write_split-Fits (o ∷ old) (p ∷ ps) h =
      (refit p p.bucket o.is_overflow h.0, write_split-Fits old ps h.1)

  pub write_buddy-Fits :
      (b : ℕ) (o : Bool) (ps : List Page) → All (Fits G) ps → All (Fits G) (write_buddy b o ps)
  write_buddy-Fits b o [] h = tt
  write_buddy-Fits b o (p ∷ ps) h = (refit p b o h.0, write_buddy-Fits b true ps h.1)

pub write_split-records :
    (old ps : List Page)
    → length ps ≤ length old
    → (records (write_split old ps) ≡ records ps) × (length (write_split old ps) ≡ length ps)
write_split-records old [] h = (refl, refl)
write_split-records [] (p ∷ ps) h = absurd (omega (arith, h))
write_split-records (o ∷ old) (p ∷ ps) h =
    let (r, n) = write_split-records old ps (omega (arith, h)) in
    (ap (λ m. p.slots ++ m) r, omega (arith, n))

pub write_buddy-records :
    (b : ℕ) (o : Bool) (ps : List Page)
    → (records (write_buddy b o ps) ≡ records ps) × (length (write_buddy b o ps) ≡ length ps)
write_buddy-records b o [] = (refl, refl)
write_buddy-records b o (p ∷ ps) =
    let (r, n) = write_buddy-records b true ps in (ap (λ m. p.slots ++ m) r, omega (arith, n))
