-- ===== src/TwoTree/LostUpdates.antt =====
-- backend/twotree/ConcurrentTwoBTree.hpp: classes of states on which the adapter loses a write or
-- fails an assertion: `update` under `cache_under_pressure_soft`, and keys with a delete mark.
use tree.Prelude.{
  ℕ, suc, ◌≤◌, ◌≡◌, true, false, none, some, List, [], ◌∷◌, arith, ok, fault, Ensures_all, ◌>>=◌,
  ==_refl, ap, ◌∙◌,
}
use tree.Index.{Index, OpResult, Ascends, find}
use tree.TwoTree.Record.{HotRecord, TaggedPayload, tagged, delete_mark, modified}
use tree.TwoTree.State.{TwoTree, Draws, should_migrate, cache_under_pressure_soft}
use tree.TwoTree.Admit.{new_tag, admit_element, admit_element_might_fail, admit_delete_mark_element}
use tree.TwoTree.Access.{insert_locked, remove, update_cold, update_locked, overwrite}
use tree.TwoTree.Evict.{Victim, Locks, age_record, choose_range, collect, evict_one, evict_a_bunch}
use tree.TwoTree.View.{view}
use tree.TwoTree.Scanning.{find-below}
use tree.TwoTree.Transparent.{choose_range-keeps}
use tree.TwoTree.Answers.{new_tag-fields}

module _ {P : Type 0} (H : Index (HotRecord P)) (C : Index P) where
  collect_mark :
      (locks : Locks) (k last : ℕ) (es : List (ℕ × HotRecord P)) (low : ℕ) (t : H.Tree)
      → Ascends low es
      → find k es ≡ some delete_mark
      → k ≤ last
      → collect H C locks last es t ≡ fault
  unfolding collect
  collect_mark locks k last [] low t a e le = cc
  collect_mark locks k last ((i, delete_mark) ∷ es) low t a e le =
      ground (arith, find-below H es (suc i) k a.1)
  collect_mark locks k last ((i, tagged tp) ∷ es) low t a e le = ground (
    arith,
    find-below H es (suc i) k a.1,
    collect_mark locks k last es (suc i) (H.update t i age_record).1 a.1,
  )

module _ {P : Type 0} {H : Index (HotRecord P)} {C : Index P} where
  -- In inclusive trees the write-back of an unmodified record leaves the cold tree's record.
  evict_unmodified :
      (t : TwoTree H C) (v : Victim P) (tp : TaggedPayload P) (w : P)
      → t.config.inclusive ≡ true
      → H.lookup t.hot v.key ≡ some (tagged tp)
      → modified tp ≡ false
      → C.lookup t.cold v.key ≡ some w
      → (u : TwoTree H C) × (evict_one H C t v true ≡ ok u) × (view u v.key ≡ some w)
  unfolding evict_one
  evict_unmodified t v tp w inclusive held clean below =
      let (u, run, shows) =
        Ensures_all (λ _ u. view u v.key ≡ some w) (evict_one H C t v true)
          λ _. ground (
            arith,
            H.remove_result t.hot v.key,
            H.lookup-remove t.hot v.key v.key,
            ==_refl v.key,
          ) in
      (u, run, shows 0)

  module _ (s : TwoTree H C) (d : Draws) (k : ℕ) (v w : P) where
    -- `update` of a record of the cold tree that is to migrate while `cache_under_pressure_soft`
    -- holds, where the hot tree has no room: it returns without a fault, and every key shows what
    -- it showed before, so that the new value is lost.
    pub update_lost :
        H.lookup s.hot k ≡ none
        → C.lookup s.cold k ≡ some w
        → should_migrate s.config d.migrate_roll ≡ true
        → cache_under_pressure_soft s.config d.soft_pages ≡ true
        → H.insert_might_fail s.hot k (tagged (new_tag v false true))
          ≡ (OpResult.not_enough_space, s.hot)
        → (t : TwoTree H C) × (update_locked H C s d k v ≡ ok t) × ((j : ℕ) → view t j ≡ view s j)
    unfolding update_locked update_cold admit_element_might_fail
    update_lost absent there migrates pressed full =
        Ensures_all (λ j t. view t j ≡ view s j) (update_locked H C s d k v)
          λ j. ground (arith, H.update_result s.hot k (overwrite v))

    -- The same `update` on inclusive trees where the hot tree has room: the key shows the new value,
    -- but the record is not marked as modified, and the write-back of an eviction of the key drops
    -- it. The key then shows the old value again.
    pub update_forgotten :
        s.config.inclusive ≡ true
        → H.lookup s.hot k ≡ none
        → C.lookup s.cold k ≡ some w
        → should_migrate s.config d.migrate_roll ≡ true
        → cache_under_pressure_soft s.config d.soft_pages ≡ true
        → (let tag = new_tag v false true in
            H.insert_might_fail s.hot k (tagged tag) ≡ H.insert s.hot k (tagged tag))
        → (copy : TaggedPayload P) (version : ℕ)
        → (t : TwoTree H C) × (update_locked H C s d k v ≡ ok t)
          × (view t k ≡ some v)
          × (u : TwoTree H C) × (evict_one H C t
                (record { key = k; copy = copy; lock_version = version })
                true
              ≡ ok u)
          × (view u k ≡ some w)
    unfolding update_locked update_cold admit_element_might_fail
    update_forgotten inclusive absent there migrates pressed room copy version =
        let tag = new_tag v false true in
        let fields = new_tag-fields v false true in
        let (t, run, after) =
          Ensures_all
            (λ _ t.
              (t.config.inclusive ≡ true)
              × (H.lookup t.hot k ≡ some (tagged tag))
              × (C.lookup t.cold k ≡ some w))
            (update_locked H C s d k v)
            λ _. ground (
              arith,
              H.update_result s.hot k (overwrite v),
              H.insert_fresh s.hot k (tagged tag),
              H.lookup-insert s.hot k k (tagged tag),
              ==_refl k,
            ) in
        let (same, held, below) = after 0 in
        let (u, evicted, gone) =
          evict_unmodified t (record { key = k; copy = copy; lock_version = version }) tag w same
            held fields.1 below in
        (t, run, ground (arith, fields), u, evicted, gone)

  -- `insert` of a removed key fails an assertion.
  pub insert-remove :
      (s : TwoTree H C) (k : ℕ) (v : P)
      → (remove H C s k >>= λ r. insert_locked H C r.1 k v) ≡ fault
  unfolding remove insert_locked admit_element admit_delete_mark_element
  insert-remove s k v = ground (
    arith,
    H.insert_fresh s.hot k delete_mark,
    H.lookup-insert s.hot k k delete_mark,
    H.remove_result s.hot k,
    H.lookup-remove s.hot k k,
    H.insert_fresh (H.remove s.hot k).1 k delete_mark,
    H.lookup-insert (H.remove s.hot k).1 k k delete_mark,
    H.insert_present s.hot k (tagged (new_tag v true false)) delete_mark,
    H.insert_present (H.insert s.hot k delete_mark).1 k (tagged (new_tag v true false)) delete_mark,
    H.insert_present (H.insert (H.remove s.hot k).1 k delete_mark).1 k
        (tagged (new_tag v true false)) delete_mark,
    ==_refl k,
  )

  -- A round of eviction whose range holds a key with a delete mark fails an assertion.
  pub evict_a_bunch_mark :
      (s s' : TwoTree H C) (locks : Locks) (k last parity : ℕ)
      → choose_range H C s ≡ some (last, parity, s')
      → H.lookup s.hot k ≡ some delete_mark
      → s.clock_hand ≤ k
      → k ≤ last
      → evict_a_bunch H C s locks ≡ fault
  unfolding evict_a_bunch
  evict_a_bunch_mark s s' locks k last parity chosen marked from to =
      let (hot, cold, config) = choose_range-keeps s s' last parity chosen in
      let listed : find k (H.scan_asc s'.hot s.clock_hand) ≡ some delete_mark =
        H.find-scan s'.hot s.clock_hand k from ∙ ap (λ t. H.lookup t k) hot ∙ marked in
      rw (chosen, evict_a_bunch)
        (rw (
          collect_mark H C locks k last (H.scan_asc s'.hot s.clock_hand) s.clock_hand s'.hot
            (H.scan_ascends s'.hot s.clock_hand) listed to))
