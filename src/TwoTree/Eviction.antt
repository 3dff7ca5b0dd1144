-- ===== src/TwoTree/Eviction.antt =====
-- backend/twotree/ConcurrentTwoBTree.hpp: eviction changes no answer.
use tree.Prelude.{
  ℕ, ◌≡◌, ◌==◌, if◌then◌else◌, Bool, false, none, some, arith, ok, Ensures_all, ==→eq, List, [],
  ◌∷◌, suc, ◌≤◌, ◌<◌, refl, ◌∙◌, Option-cases, inl, inr,
}
use tree.Index.{Index}
use tree.TwoTree.Record.{HotRecord, TaggedPayload, tagged}
use tree.TwoTree.State.{TwoTree}
use tree.TwoTree.Admit.{upsert_cold_partition, insert_cold_partition}
use tree.TwoTree.Evict.{Victim, Locks, evict_one, evict_victims}
use tree.TwoTree.View.{Fits, Same}

-- After the write-back of key `k` with payload `p` the key is gone from the hot tree and the cold
-- tree has it.
pub record Evicted {P : Type 0} {H : Index (HotRecord P)} {C : Index P} (s : TwoTree H C) (k : ℕ)
    (p : P) (j : ℕ) (t : TwoTree H C) : Type 0 where
  pub config : t.config ≡ s.config
  pub hot : H.lookup t.hot j ≡ (if k == j then none else H.lookup s.hot j)
  pub cold : C.lookup t.cold j ≡ (if k == j then some p else C.lookup s.cold j)

-- The victims' keys ascend from `low`, and the hot tree holds the copies that the scan made.
module _ {P : Type 0} (H : Index (HotRecord P)) where
  abbrev pub Holds : H.Tree → ℕ → List (Victim P) → Type 0
  Holds t low [] = Unit
  Holds t low (v ∷ vs) =
      (low ≤ v.key) × (H.lookup t v.key ≡ some (tagged v.copy)) × Holds t (suc v.key) vs

  pub Holds-lower :
      (t : H.Tree) (low low' : ℕ) (vs : List (Victim P))
      → low ≤ low'
      → Holds t low' vs
      → Holds t low vs
  Holds-lower t low low' [] le h = tt
  Holds-lower t low low' (v ∷ vs) le h = (omega arith, h.1, h.2)

module _ {P : Type 0} {H : Index (HotRecord P)} {C : Index P} where
  evict_one-Evicted :
      (s : TwoTree H C) (v : Victim P) (stale : Bool) (tp : TaggedPayload P)
      → Fits s v.key
      → H.lookup s.hot v.key ≡ some (tagged tp)
      → (stale ≡ false → v.copy ≡ tp)
      → (t : TwoTree H C) × (evict_one H C s v stale ≡ ok t)
        × ((j : ℕ) → Evicted s v.key tp.payload j t)
  unfolding evict_one upsert_cold_partition insert_cold_partition
  evict_one-Evicted s v stale tp f held fresh =
      Ensures_all (λ j t. Evicted s v.key tp.payload j t) (evict_one H C s v stale)
        λ j. ground (
          arith,
          f.single tp,
          f.backed tp,
          C.upsert_ok s.cold v.key tp.payload,
          C.lookup-upsert s.cold v.key j tp.payload,
          C.insert_fresh s.cold v.key tp.payload,
          C.lookup-insert s.cold v.key j tp.payload,
          H.remove_result s.hot v.key,
          H.lookup-remove s.hot v.key j,
          ==→eq v.key j,
        )

  Evicted-Same :
      (s t : TwoTree H C) (k : ℕ) (tp : TaggedPayload P) (j : ℕ)
      → H.lookup s.hot k ≡ some (tagged tp)
      → Fits s j
      → Evicted s k tp.payload j t
      → Same s t j
  Evicted-Same s t k tp j held f e = record {
    shows = ground (arith, ==→eq k j, e.hot, e.cold);
    fits = record {
      single = λ tp'. ground (arith, f.single tp', e.hot, e.cold);
      backed = λ tp'. ground (arith, f.backed tp', e.hot, e.cold);
    };
  }

  Holds-Evicted :
      (s t : TwoTree H C) (k low : ℕ) (p : P) (vs : List (Victim P))
      → k < low
      → ((j : ℕ) → Evicted s k p j t)
      → Holds H s.hot low vs
      → Holds H t.hot low vs
  Holds-Evicted s t k low p [] lt e h = tt
  Holds-Evicted s t k low p (v ∷ vs) lt e h = (
    h.0,
    ground (arith, (e v.key).hot, ==→eq k v.key),
    Holds-Evicted s t k (suc v.key) p vs (omega arith) e h.2,
  )

  pub Same-trans : (s t u : TwoTree H C) (j : ℕ) → Same s t j → Same t u j → Same s u j
  Same-trans s t u j a b = record { shows = b.shows ∙ a.shows; fits = b.fits }

  pub evict_victims-Same :
      (locks : Locks) (vs : List (Victim P)) (s : TwoTree H C) (low : ℕ)
      → ((j : ℕ) → Fits s j)
      → Holds H s.hot low vs
      → (t : TwoTree H C) × (evict_victims H C s locks vs ≡ ok t) × ((j : ℕ) → Same s t j)
  unfolding evict_victims
  evict_victims-Same locks [] s low f h = (s, refl, λ j. record { shows = refl; fits = f j })
  evict_victims-Same locks (v ∷ vs) s low f h = elim (Option-cases (locks.write_lock v.key)) [
    | inl skip ↦ rw (skip, evict_victims) (evict_victims-Same locks vs s (suc v.key) f h.2)
    | inr (stale, taken) ↦
        let (t, run, gone) = evict_one-Evicted s v stale v.copy (f v.key) h.1 (λ _. refl) in
        let same : (j : ℕ) → Same s t j = λ j. Evicted-Same s t v.key v.copy j h.1 (f j) (gone j) in
        let (u, onward, rest) =
          evict_victims-Same locks vs t (suc v.key) (λ j. (same j).fits)
            (Holds-Evicted s t v.key (suc v.key) v.copy.payload vs (omega arith) gone h.2) in
        (u, rw (taken, evict_victims) (rw run onward), λ j. Same-trans s t u j (same j) (rest j))
  ]
