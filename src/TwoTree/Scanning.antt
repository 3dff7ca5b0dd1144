-- ===== src/TwoTree/Scanning.antt =====
-- backend/twotree/ConcurrentTwoBTree.hpp: the scan of `evict_a_bunch` ages the records of its range
-- and copies the victims as the tree then holds them.
use tree.Prelude.{
  ℕ, suc, ◌≤◌, ◌<◌, ◌≡◌, ◌≢◌, ◌&&◌, ltb, leb, if◌then◌else◌, none, some, List, [], ◌∷◌, arith, ok,
  refl, Option-cases, Bool-cases, inl, inr, subst, sym,
}
use mathlib.Core.Option
use tree.Index.{Index, find, Ascends}
use tree.TwoTree.Record.{HotRecord, TaggedPayload, tagged, delete_mark}
use tree.TwoTree.Evict.{Victim, Locks, age, age_record, choose, add_victim, collect}
use tree.TwoTree.Eviction.{Holds, Holds-lower}

module _ {P : Type 0} (H : Index (HotRecord P)) where
  -- Entry by entry, `entries` is the tree from `low` on.
  abbrev pub Lists : List (ℕ × HotRecord P) → ℕ → H.Tree → Type 0
  Lists entries low t = Ascends low entries × ((j : ℕ) → low ≤ j → find j entries ≡ H.lookup t j)

  Lists-update :
      (k : ℕ) (r : HotRecord P) (rest : List (ℕ × HotRecord P)) (low : ℕ) (t : H.Tree)
      → Lists ((k, r) ∷ rest) low t
      → Lists rest (suc k) (H.update t k age_record).1
  Lists-update k r rest low t h =
      (h.0.1, λ j le. ground (arith, h.1 j, h.0.0, H.lookup-update t k j age_record))

  pub find-below :
      (es : List (ℕ × HotRecord P)) (low j : ℕ) → Ascends low es → j < low → find j es ≡ none
  find-below [] low j a lt = refl
  find-below ((k, r) ∷ es) low j a lt = ground (arith, find-below es (suc k) j a.1)

  choose_lem :
      (locks : Locks) (k : ℕ) (tp : TaggedPayload P) (v : Victim P)
      → choose locks k tp ≡ some v
      → (v.key ≡ k) × (v.copy ≡ age tp)
  unfolding choose age
  choose_lem locks k tp v h = ground arith

  -- The scan of the keys from `low` to `last` of the tree `t` gave `r`.
  pub record Scanned (t : H.Tree) (low last : ℕ) (r : List (Victim P) × H.Tree) : Type 0 where
    pub holds : Holds H r.1 low r.0
    pub aged :
        (j : ℕ)
        → H.lookup r.1 j
          ≡ (if leb low j && leb j last then Option.map age_record (H.lookup t j) else H.lookup t j)

  add_victim-Holds :
      (locks : Locks) (k low : ℕ) (tp : TaggedPayload P) (t : H.Tree) (vs : List (Victim P))
      → low ≤ k
      → H.lookup t k ≡ some (tagged (age tp))
      → Holds H t (suc k) vs
      → Holds H t low (add_victim (choose locks k tp) vs)
  add_victim-Holds locks k low tp t vs le now h = elim (Option-cases (choose locks k tp)) [
    | inl e ↦ rw e (Holds-lower H t low (suc k) vs (omega arith) h)
    | inr (v, e) ↦
        let (key, copy) = choose_lem locks k tp v e in
        rw e (omega arith, ground arith, subst (λ n. Holds H t (suc n) vs) (sym key) h)
  ]

  abbrev pub NoMarks : H.Tree → Type 0
  NoMarks t = (j : ℕ) → H.lookup t j ≢ some delete_mark

  module _ (C : Index P) (locks : Locks) (last : ℕ) where
    pub collect-Scanned :
        (es : List (ℕ × HotRecord P)) (low : ℕ) (t : H.Tree)
        → Lists es low t
        → NoMarks t
        → (r : List (Victim P) × H.Tree) × (collect H C locks last es t ≡ ok r)
          × Scanned t low last r
    unfolding collect
    collect-Scanned [] low t l clean =
        (([], t), refl, record { holds = tt; aged = λ j. ground (arith, l.1 j) })
    collect-Scanned ((k, delete_mark) ∷ es) low t l clean =
        absurd (clean k (ground (arith, l.1 k, l.0.0)))
    collect-Scanned ((k, tagged tp) ∷ es) low t l clean =
        let t' = (H.update t k age_record).1 in
        let here : H.lookup t k ≡ some (tagged tp) = ground (arith, l.1 k, l.0.0) in
        let now : H.lookup t' k ≡ some (tagged (age tp)) =
          ground (arith, here, H.lookup-update t k k age_record) in
        elim (Bool-cases (ltb last k)) [
          | inl past ↦ (
            ([], t),
            rw past,
            record { holds = tt; aged = λ j. ground (arith, l.1 j, find-below es (suc k) j l.0.1) },
          )
          | inr within ↦ elim (Bool-cases (ltb k last)) [
            | inr final ↦ (
              (add_victim (choose locks k tp) [], t'),
              rw (within, final),
              record {
                holds = add_victim-Holds locks k low tp t' [] l.0.0 now tt;
                aged = λ j.
                    ground (
                      arith,
                      l.1 j,
                      find-below es (suc k) j l.0.1,
                      H.lookup-update t k j age_record,
                    );
              },
            )
            | inl more ↦
                let (r, run, s) =
                  collect-Scanned es (suc k) t' (Lists-update k (tagged tp) es low t l)
                    (λ j. ground (arith, clean j, H.lookup-update t k j age_record)) in
                (
                  (add_victim (choose locks k tp) r.0, r.1),
                  rw (within, more) (rw run),
                  record {
                    holds =
                        add_victim-Holds locks k low tp r.1 r.0 l.0.0
                          (ground (arith, s.aged k, now)) s.holds;
                    aged = λ j. ground (
                      arith,
                      l.1 j,
                      find-below es (suc k) j l.0.1,
                      H.lookup-update t k j age_record,
                      s.aged j,
                    );
                  },
                )
          ]
        ]
