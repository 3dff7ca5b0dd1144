-- ===== src/TwoTree/View.antt =====
-- backend/twotree/ConcurrentTwoBTree.hpp: the map that a client of the adapter sees, and how the two
-- trees fit together.
use tree.Prelude.{ℕ, ◌≡◌, ◌==◌, if◌then◌else◌, true, false, Option, none, some}
use tree.Index.{Index}
use tree.TwoTree.Record.{HotRecord, TaggedPayload, tagged, delete_mark, modified}
use tree.TwoTree.State.{TwoTree}

abbrev pub over : {P : Type 0} → Option (HotRecord P) → Option P → Option P
over none c = c
over (some (tagged tp)) c = some tp.payload
over (some delete_mark) c = none

module _ {P : Type 0} {H : Index (HotRecord P)} {C : Index P} where
  -- A hot record hides the cold one, and a delete mark hides it too.
  abbrev pub view : TwoTree H C → ℕ → Option P
  view s k = over (H.lookup s.hot k) (C.lookup s.cold k)

  -- Exclusive trees share no record. In inclusive trees an unmodified hot record has its payload in
  -- the cold tree as well.
  pub record Fits (s : TwoTree H C) (k : ℕ) : Type 0 where
    pub single :
        (tp : TaggedPayload P)
        → s.config.inclusive ≡ false
        → H.lookup s.hot k ≡ some (tagged tp)
        → C.lookup s.cold k ≡ none
    pub backed :
        (tp : TaggedPayload P)
        → s.config.inclusive ≡ true
        → H.lookup s.hot k ≡ some (tagged tp)
        → modified tp ≡ false
        → C.lookup s.cold k ≡ some tp.payload

  -- The state `t` shows what `s` shows, and fits together.
  pub record Same (s t : TwoTree H C) (j : ℕ) : Type 0 where
    pub shows : view t j ≡ view s j
    pub fits : Fits t j

  -- `t` shows `v` at `k` and elsewhere what `s` shows.
  pub record Wrote (s : TwoTree H C) (k : ℕ) (v : Option P) (j : ℕ) (t : TwoTree H C) : Type 0 where
    pub shows : view t j ≡ (if k == j then v else view s j)
    pub fits : Fits t j
