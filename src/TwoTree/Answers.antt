-- ===== src/TwoTree/Answers.antt =====
-- backend/twotree/ConcurrentTwoBTree.hpp: what `lookup` returns.
use tree.Prelude.{
  ℕ, ◌≡◌, if◌then◌else◌, Bool, true, false, Option, none, some, List, [], ◌∷◌, arith, ok, ◌&&◌,
  ◌||◌, Ensures_all, ==→eq, refl, Bool-cases, inl, inr, ◌∙◌, add64, Option-cases,
}
use tree.Index.{Index}
use tree.TwoTree.Record.{HotRecord, TaggedPayload, tagged, delete_mark, modified}
use tree.TwoTree.State.{TwoTree, Draws}
use tree.TwoTree.Admit.{new_tag, admit_element, admit_element_might_fail}
use tree.TwoTree.Access.{Found, Round, touch, migrate_up, lookup_internal, lookup_rounds}
use tree.TwoTree.View.{view, Fits, Same}
use tree.TwoTree.Eviction.{Same-trans}

module _ {P : Type 0} where
  abbrev pub answer : Bool → P → Option P
  answer res v = if res then some v else none

  touch-keeps :
      (tp : TaggedPayload P)
      → (t : TaggedPayload P) × (touch (tagged tp) ≡ tagged t)
        × (t.payload ≡ tp.payload)
        × (modified t ≡ modified tp)
  unfolding touch modified
  touch-keeps tp = (_, refl, ground arith, ground arith)

  pub new_tag-fields :
      (v : P) (m r : Bool) → ((new_tag v m r).payload ≡ v) × (modified (new_tag v m r) ≡ m)
  unfolding new_tag modified
  new_tag-fields v m r = ground arith

-- What `lookup_internal` gives, seen at key `j`: the trees still fit and show the same. If the
-- write lock for a migration is had where it is asked for, the answer is what `k` shows.
record Looked {P : Type 0} {H : Index (HotRecord P)} {C : Index P} (s : TwoTree H C) (k : ℕ)
    (upgraded : Bool) (j : ℕ) (r : Found P × TwoTree H C) : Type 0 where
  pub answers : upgraded ≡ true → answer r.0.res r.0.value ≡ view s k
  pub same : Same s r.1 j

module _ {P : Type 0} {H : Index (HotRecord P)} {C : Index P} where
  migrate_up-Looked :
      (s : TwoTree H C) (d : Draws) (k : ℕ) (w : P)
      → H.lookup s.hot k ≡ none
      → C.lookup s.cold k ≡ some w
      → ((j : ℕ) → Fits s j)
      → (r : Found P × TwoTree H C) × (migrate_up H C s d k w ≡ ok r)
        × ((j : ℕ) → Looked s k true j r)
  unfolding migrate_up admit_element admit_element_might_fail
  migrate_up-Looked s d k w absent there f =
      Ensures_all (λ j r. Looked s k true j r) (migrate_up H C s d k w)
        λ j.
          let tag = new_tag w false false in
          let fields = new_tag-fields w false false in
          ground (
            arith,
            H.might_fail s.hot k (tagged tag),
            H.insert_fresh s.hot k (tagged tag),
            H.lookup-insert s.hot k j (tagged tag),
            C.remove_result s.cold k,
            C.lookup-remove s.cold k j,
            ==→eq k j,
            fields,
            (f j).single,
            (f j).backed,
          )

  lookup_internal-Looked :
      (s : TwoTree H C) (d : Draws) (upgraded : Bool) (k : ℕ) (v : P)
      → ((j : ℕ) → Fits s j)
      → (r : Found P × TwoTree H C) × (lookup_internal H C s d upgraded k v ≡ ok r)
        × ((j : ℕ) → Looked s k upgraded j r)
  unfolding lookup_internal
  lookup_internal-Looked s d upgraded k v f =
      let s₀ : TwoTree H C = record s { total_lookups = add64 s.total_lookups 1 } in
      let f₀ : (j : ℕ) → Fits s₀ j = λ j. record { single = (f j).single; backed = (f j).backed } in
      let goal =
        Ensures_all (λ j r. Looked s k upgraded j r) (lookup_internal H C s d upgraded k v) in
      elim (Option-cases (H.lookup s.hot k)) [
        | inr (delete_mark, e) ↦ goal (λ j. ground (arith, e, (f j).single, (f j).backed))
        | inr (tagged tp, e) ↦ goal λ j.
            let (t, touched, payload, flag) = touch-keeps tp in
            ground (
              arith,
              e,
              touched,
              payload,
              flag,
              (f j).single tp,
              (f j).backed tp,
              (f j).single,
              (f j).backed,
              H.lookup-update s.hot k j touch,
              ==→eq k j,
            )
        | inl e ↦ elim (Option-cases (C.lookup s.cold k)) [
          | inl e' ↦ goal (λ j. ground (arith, e, e', (f j).single, (f j).backed))
          | inr (w, e') ↦
              let (r, run, looked) = migrate_up-Looked s₀ d k w e e' f₀ in
              goal (λ j.
                let l = looked j in
                ground (
                  arith,
                  e,
                  e',
                  run,
                  l.answers refl,
                  l.same.shows,
                  l.same.fits,
                  (f j).single,
                  (f j).backed,
                ))
        ]
      ]

-- `validate` succeeds only where an upgrade that was asked for did: `Lock.Snapshot` proves it.
abbrev pub Honest : List Round → Type 0
Honest [] = Unit
Honest (r ∷ rest) = (r.valid ≡ true → r.upgraded ≡ true) × Honest rest

-- A round that can read its lock word and validates it ends the loop.
abbrev pub ends : List Round → Bool
ends [] = false
ends (r ∷ rest) = (r.read_ok && r.valid) || ends rest

module _ {P : Type 0} {H : Index (HotRecord P)} {C : Index P} where
  -- A lookup in trees that fit together, in which some round reads its lock word and validates it, and a round
  -- that validates has had the upgrade of its lock if it asked for one, returns, and
  -- does not fault. The result is true with the payload that the key shows, or false if it shows none. The
  -- lookup, with any migration that it makes, changes what no key shows, and the trees still fit together.
  pub lookup_rounds-view :
      (rounds : List Round) (s : TwoTree H C) (k : ℕ) (v : P)
      → Honest rounds
      → ends rounds ≡ true
      → ((j : ℕ) → Fits s j)
      → (b : Bool) × (w : P) × (t : TwoTree H C) × (lookup_rounds H C s rounds k v
          ≡ ok (some (b, w), t))
        × (answer b w ≡ view s k)
        × ((j : ℕ) → Same s t j)
  unfolding lookup_rounds
  lookup_rounds-view [] s k v h e f = cc
  lookup_rounds-view (round ∷ rest) s k v h e f = elim (Bool-cases round.read_ok) [
    | inr locked ↦
        rw (locked, lookup_rounds) (lookup_rounds-view rest s k v h.1 (ground (arith, e, locked)) f)
    | inl free ↦
        let ((found, t), run, looked) = lookup_internal-Looked s round.draws round.upgraded k v f in
        elim (Bool-cases round.valid) [
          | inl valid ↦ (
            found.res,
            found.value,
            t,
            rw (free, lookup_rounds) (rw run (rw valid)),
            (looked 0).answers (h.0 valid),
            λ j. (looked j).same,
          )
          | inr stale ↦
              let (b, w, u, onward, answers, same) =
                lookup_rounds-view rest t k found.value h.1 (ground (arith, e, stale))
                  (λ j. (looked j).same.fits) in
              (
                b,
                w,
                u,
                rw (free, lookup_rounds) (rw run (rw stale onward)),
                answers ∙ (looked k).same.shows,
                λ j. Same-trans s t u j (looked j).same (same j),
              )
        ]
  ]
