-- ===== src/TwoTree/Transparent.antt =====
-- backend/twotree/ConcurrentTwoBTree.hpp: a whole `evict_a_bunch`, and `try_eviction`, change no
-- answer.
use tree.Prelude.{
  ℕ, ◌≡◌, ◌&&◌, leb, Option, none, some, List, arith, ok, refl, sym, ap, ◌∙◌, subst, Option-cases,
  Bool-cases, inl, inr, length, add64,
}
use mathlib.Core.Option
use tree.Index.{Index}
use tree.TwoTree.Record.{HotRecord, TaggedPayload, tagged, delete_mark, modified}
use tree.TwoTree.State.{TwoTree, cache_under_pressure}
use tree.TwoTree.Evict.{
  Victim, Locks, age, age_record, choose_range, leave_round, evict_a_bunch, try_eviction,
}
use tree.TwoTree.View.{over, Fits, Same}
use tree.TwoTree.Eviction.{evict_victims-Same, Same-trans}
use tree.TwoTree.Scanning.{Scanned, NoMarks, collect-Scanned}

module _ {P : Type 0} where
  age-keeps :
      (tp : TaggedPayload P) → ((age tp).payload ≡ tp.payload) × (modified (age tp) ≡ modified tp)
  unfolding age modified
  age-keeps tp = ground arith

  -- Ageing keeps what a record shows and whether it is modified.
  over-age : (r : Option (HotRecord P)) (c : Option P) → over (Option.map age_record r) c ≡ over r c
  over-age none c = refl
  over-age (some (tagged tp)) c = ap some (age-keeps tp).0
  over-age (some delete_mark) c = refl

  aged_from :
      (r : Option (HotRecord P)) (tp : TaggedPayload P)
      → Option.map age_record r ≡ some (tagged tp)
      → (old : TaggedPayload P) × (r ≡ some (tagged old)) × (age old ≡ tp)
  aged_from none tp h = cc
  aged_from (some (tagged old)) tp h = (old, refl, cc)
  aged_from (some delete_mark) tp h = cc

module _ {P : Type 0} {H : Index (HotRecord P)} {C : Index P} where
  Fits-age :
      (s t : TwoTree H C) (j : ℕ)
      → t.config ≡ s.config
      → t.cold ≡ s.cold
      → H.lookup t.hot j ≡ Option.map age_record (H.lookup s.hot j)
      → Fits s j
      → Fits t j
  Fits-age s t j config cold hot f = record {
    single = λ tp e h.
        let (old, was, aged) = aged_from (H.lookup s.hot j) tp (sym hot ∙ h) in
        rw cold (f.single old (rw (← config) e) was);
    backed = λ tp e h m.
        let (old, was, aged) = aged_from (H.lookup s.hot j) tp (sym hot ∙ h) in
        let keeps = age-keeps old in ground (arith, f.backed old, keeps.0, keeps.1);
  }

  Fits-same :
      (s t : TwoTree H C) (j : ℕ)
      → t.config ≡ s.config
      → t.cold ≡ s.cold
      → H.lookup t.hot j ≡ H.lookup s.hot j
      → Fits s j
      → Fits t j
  Fits-same s t j config cold hot f = record {
    single = λ tp. ground (arith, f.single tp);
    backed = λ tp. ground (arith, f.backed tp);
  }

  -- The scan of an eviction changes no answer.
  Scanned-Same :
      (s t : TwoTree H C) (low last : ℕ) (vs : List (Victim P)) (j : ℕ)
      → t.config ≡ s.config
      → t.cold ≡ s.cold
      → Scanned H s.hot low last (vs, t.hot)
      → Fits s j
      → Same s t j
  Scanned-Same s t low last vs j config cold r f = elim (Bool-cases (leb low j && leb j last)) [
    | inl inside ↦
        let hot : H.lookup t.hot j ≡ Option.map age_record (H.lookup s.hot j) =
          rw (r.aged j, inside) in
        record {
          shows = rw (cold, hot) (over-age (H.lookup s.hot j) (C.lookup s.cold j));
          fits = Fits-age s t j config cold hot f;
        }
    | inr outside ↦
        let hot : H.lookup t.hot j ≡ H.lookup s.hot j = rw (r.aged j, outside) in
        record { shows = rw (cold, hot); fits = Fits-same s t j config cold hot f }
  ]

  pub choose_range-keeps :
      (s t : TwoTree H C) (last parity : ℕ)
      → choose_range H C s ≡ some (last, parity, t)
      → (t.hot ≡ s.hot) × (t.cold ≡ s.cold) × (t.config ≡ s.config)
  unfolding choose_range
  choose_range-keeps s t last parity h = ground arith

  pub evict_a_bunch-Same :
      (s : TwoTree H C) (locks : Locks)
      → ((j : ℕ) → Fits s j)
      → NoMarks H s.hot
      → (t : TwoTree H C) × (evict_a_bunch H C s locks ≡ ok t) × ((j : ℕ) → Same s t j)
  unfolding evict_a_bunch
  evict_a_bunch-Same s locks f clean = elim (Option-cases (choose_range H C s)) [
    | inl stay ↦ (s, rw (stay, evict_a_bunch), λ j. record { shows = refl; fits = f j })
    | inr ((last, parity, s₁), chosen) ↦
        let (hot, cold, config) = choose_range-keeps s s₁ last parity chosen in
        let (r, run, scanned) =
          collect-Scanned H C locks last (H.scan_asc s₁.hot s.clock_hand) s.clock_hand s₁.hot
            (H.scan_ascends s₁.hot s.clock_hand, H.find-scan s₁.hot s.clock_hand)
            (subst (λ t. NoMarks H t) (sym hot) clean) in
        let s₂ : TwoTree H C = record s₁ { hot = r.1 } in
        let same : (j : ℕ) → Same s s₂ j = λ j.
          Scanned-Same s s₂ s.clock_hand last r.0 j config cold
            (subst (λ t. Scanned H t s.clock_hand last r) hot scanned) (f j) in
        let (s₃, onward, rest) =
          evict_victims-Same locks r.0 s₂ s.clock_hand (λ j. (same j).fits) scanned.holds in
        (
          leave_round H C (record s₃ { eviction_items = add64 s₃.eviction_items (length r.0) })
              parity,
          rw (chosen, evict_a_bunch) (rw run (rw onward)),
          λ j.
              let w = Same-trans s s₂ s₃ j (same j) (rest j) in
              record {
                shows = w.shows;
                fits = record { single = w.fits.single; backed = w.fits.backed };
              },
        )
  ]

  -- The eviction that an operation tries first changes no answer either, under pressure or not.
  pub try_eviction-Same :
      (s : TwoTree H C) (hot_pages : ℕ) (locks : Locks)
      → ((j : ℕ) → Fits s j)
      → NoMarks H s.hot
      → (t : TwoTree H C) × (try_eviction H C s hot_pages locks ≡ ok t) × ((j : ℕ) → Same s t j)
  unfolding try_eviction
  try_eviction-Same s hot_pages locks f clean =
      elim (Bool-cases (cache_under_pressure s.config hot_pages)) [
        | inl under ↦ rw under (evict_a_bunch-Same s locks f clean)
        | inr roomy ↦ rw roomy (s, refl, λ j. record { shows = refl; fits = f j })
      ]
