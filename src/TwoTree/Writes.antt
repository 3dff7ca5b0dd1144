-- ===== src/TwoTree/Writes.antt =====
-- backend/twotree/ConcurrentTwoBTree.hpp: what `insert`, `remove`, `update` and `put` write.
use tree.Prelude.{
  ℕ, ◌≡◌, ◌≢◌, Bool, true, false, none, some, arith, ok, Ensures_all, ==→eq, ==_refl, refl, inl,
  inr, Option-cases,
}
use tree.Index.{Index}
use tree.TwoTree.Record.{HotRecord, TaggedPayload, tagged, delete_mark, modified}
use tree.TwoTree.State.{TwoTree, Draws, should_migrate, cache_under_pressure_soft}
use tree.TwoTree.Admit.{new_tag, admit_element, admit_delete_mark_element}
use tree.TwoTree.Access.{insert_locked, remove, update_cold, update_locked, put_locked, overwrite}
use tree.TwoTree.View.{view, Fits, Wrote}
use tree.TwoTree.Answers.{new_tag-fields}

overwrite-fields :
    {P : Type 0} (v : P) (tp : TaggedPayload P)
    → (t : TaggedPayload P) × (overwrite v (tagged tp) ≡ tagged t)
      × (t.payload ≡ v)
      × (modified t ≡ true)
unfolding overwrite modified
overwrite-fields v tp = (_, refl, refl, ground arith)

module _ {P : Type 0} {H : Index (HotRecord P)} {C : Index P} where
  -- `insert` of a key that neither tree holds does not fault, the key then shows the value, no
  -- other key changes, and the trees still fit together.
  pub insert-Wrote :
      (s : TwoTree H C) (k : ℕ) (v : P)
      → H.lookup s.hot k ≡ none
      → C.lookup s.cold k ≡ none
      → ((j : ℕ) → Fits s j)
      → (t : TwoTree H C) × (insert_locked H C s k v ≡ ok t) × ((j : ℕ) → Wrote s k (some v) j t)
  unfolding insert_locked admit_element
  insert-Wrote s k v absent new f =
      Ensures_all (λ j t. Wrote s k (some v) j t) (insert_locked H C s k v)
        λ j.
          let tag = new_tag v true false in
          ground (
            arith,
            H.insert_fresh s.hot k (tagged tag),
            H.lookup-insert s.hot k j (tagged tag),
            ==→eq k j,
            new_tag-fields v true false,
            (f j).single,
            (f j).backed,
          )

  -- `remove` does not fault and returns true, whether the key is there or not. The key then shows
  -- nothing, no other key changes, and the trees still fit together.
  pub remove-Wrote :
      (s : TwoTree H C) (k : ℕ)
      → ((j : ℕ) → Fits s j)
      → (r : Bool × TwoTree H C) × (remove H C s k ≡ ok r)
        × ((j : ℕ) → (r.0 ≡ true) × Wrote s k none j r.1)
  unfolding remove admit_delete_mark_element
  remove-Wrote s k f =
      Ensures_all (λ j r. (r.0 ≡ true) × Wrote s k none j r.1) (remove H C s k)
        λ j. ground (
          arith,
          H.insert_fresh s.hot k delete_mark,
          H.lookup-insert s.hot k j delete_mark,
          H.remove_result s.hot k,
          H.lookup-remove s.hot k j,
          H.lookup-remove s.hot k k,
          H.insert_fresh (H.remove s.hot k).1 k delete_mark,
          H.lookup-insert (H.remove s.hot k).1 k j delete_mark,
          ==→eq k j,
          ==_refl k,
          (f j).single,
          (f j).backed,
        )

  -- `put` of a key that has no delete mark, and that the cold tree holds if the trees are exclusive
  -- and the hot tree does not hold it: it does not fault, the key then shows the value, no other
  -- key changes, and the trees still fit together.
  pub put-Wrote :
      (s : TwoTree H C) (k : ℕ) (v : P)
      → H.lookup s.hot k ≢ some delete_mark
      → (H.lookup s.hot k ≡ none → s.config.inclusive ≡ false → C.lookup s.cold k ≢ none)
      → ((j : ℕ) → Fits s j)
      → (t : TwoTree H C) × (put_locked H C s k v ≡ ok t) × ((j : ℕ) → Wrote s k (some v) j t)
  unfolding put_locked admit_element
  put-Wrote s k v unmarked there f =
      let tag = new_tag v true false in
      let goal = Ensures_all (λ j t. Wrote s k (some v) j t) (put_locked H C s k v) in
      elim (Option-cases (H.lookup s.hot k)) [
        | inr (delete_mark, e) ↦ absurd (unmarked e)
        | inr (tagged tp, e) ↦ goal λ j.
            let (t, written, payload, dirty) = overwrite-fields v tp in
            ground (
              arith,
              e,
              written,
              payload,
              dirty,
              H.lookup-update s.hot k j (overwrite v),
              ==→eq k j,
              (f k).single tp,
              (f j).single,
              (f j).backed,
            )
        | inl e ↦ goal λ j. ground (
          arith,
          e,
          there e,
          H.insert_fresh s.hot k (tagged tag),
          H.lookup-insert s.hot k j (tagged tag),
          C.remove_result s.cold k,
          C.lookup-remove s.cold k j,
          ==→eq k j,
          new_tag-fields v true false,
          (f j).single,
          (f j).backed,
        )
      ]

  -- `update` of a key that shows a value, where the record is in the hot tree, or does not migrate,
  -- or migrates without `cache_under_pressure_soft`: it does not fault, the key then shows the new
  -- value, no other key changes, and the trees still fit together.
  pub update-Wrote :
      (s : TwoTree H C) (d : Draws) (k : ℕ) (v w : P)
      → view s k ≡ some w
      → (H.lookup s.hot k ≡ none
          → should_migrate s.config d.migrate_roll ≡ true
          → cache_under_pressure_soft s.config d.soft_pages ≡ false)
      → ((j : ℕ) → Fits s j)
      → (t : TwoTree H C) × (update_locked H C s d k v ≡ ok t) × ((j : ℕ) → Wrote s k (some v) j t)
  unfolding update_locked update_cold admit_element
  update-Wrote s d k v w shown calm f =
      let tag = new_tag v true false in
      let goal = Ensures_all (λ j t. Wrote s k (some v) j t) (update_locked H C s d k v) in
      elim (Option-cases (H.lookup s.hot k)) [
        | inr (delete_mark, e) ↦ absurd (ground arith)
        | inr (tagged tp, e) ↦ goal λ j.
            let (t, written, payload, dirty) = overwrite-fields v tp in
            ground (
              arith,
              e,
              written,
              payload,
              dirty,
              H.update_result s.hot k (overwrite v),
              H.lookup-update s.hot k j (overwrite v),
              ==→eq k j,
              (f k).single tp,
              (f j).single,
              (f j).backed,
            )
        | inl e ↦
            let hot = (H.update s.hot k (overwrite v)).1 in
            goal λ j. ground (
              arith,
              e,
              calm e,
              H.update_result s.hot k (overwrite v),
              H.insert_fresh s.hot k (tagged tag),
              H.lookup-insert s.hot k j (tagged tag),
              C.lookup-remove s.cold k j,
              C.lookup-update s.cold k j (λ _. v),
              ==→eq k j,
              new_tag-fields v true false,
              (f j).single,
              (f j).backed,
            )
      ]
