-- ===== src/TwoTree/Scan.antt =====
-- backend/twotree/ConcurrentTwoBTree.hpp: `scan`, which merges the two trees through two buffers of
-- `scan_buffer_size` entries. A buffer is the entries before its index, the latest first, and those from
-- the index on. `processor` is asked with all the entries handed over so far, the latest first.
pub mod Merged
pub mod Drained
pub mod Filled
pub mod Refilled
pub mod Loop
pub mod Shown
use tree.Prelude.{
  ℕ, zero, suc, ◌+◌, Bool, true, false, not, ◌&&◌, if◌then◌else◌, ltb, leb, Option, none, some,
  List, [], ◌∷◌, ◌++◌, length, Run, ok, fault, ◌>>=◌, add64,
}
use tree.Index.{Index}
use tree.TwoTree.Record.{HotRecord, tagged, delete_mark}
use tree.TwoTree.State.{TwoTree}

abbrev pub scan_buffer_size : ℕ
scan_buffer_size = 8

pub record Buffer (P : Type 0) : Type 0 where
  pub consumed : List (ℕ × P)
  pub rest : List (ℕ × P)
  pub tree_end : Bool

abbrev pub is_nil : {A : Type 0} → List A → Bool
is_nil [] = true
is_nil (x ∷ xs) = false

-- The outcome of a part of the loop: the processor stopped the scan, or the scan goes on.
pub data Walk (P A : Type 0) : Type 0 where
  ended : List (ℕ × P) → Walk P A
  going : List (ℕ × P) → A → Walk P A

abbrev pub and_then : {P A B : Type 0} → Walk P A → (List (ℕ × P) → A → Walk P B) → Walk P B
and_then (ended trace) f = ended trace
and_then (going trace a) f = f trace a

-- `assert(value_length == sizeof(TaggedPayload))`: a delete mark is one byte.
abbrev pub read_hot : {P : Type 0} → HotRecord P → Run P
read_hot (tagged tp) = ok tp.payload
read_hot delete_mark = fault

abbrev pub read_cold : {P : Type 0} → P → Run P
read_cold = ok

module _ {P : Type 0} where
  abbrev pub len : Buffer P → ℕ
  len b = length b.consumed + length b.rest

  module _ {V : Type 0} (read : V → Run P) where
    -- The calls of the callback.
    unfoldable pub fill_entries : List (ℕ × V) → Buffer P → Run (Buffer P)
    fill_entries [] b = ok b
    fill_entries ((k, v) ∷ es) b = read v >>= λ payload.
        let b' = record b { rest = b.rest ++ ((k, payload) ∷ []) } in
        elim (leb scan_buffer_size (len b')) [ true ↦ ok b' | false ↦ fill_entries es b' ]

    unfoldable pub fill_scan_buffer : (ℕ → List (ℕ × V)) → ℕ → Buffer P → Run (Buffer P)
    unfolding fill_entries
    fill_scan_buffer scan_asc startk b =
        if ltb (len b) scan_buffer_size && not b.tree_end
        then (fill_entries (scan_asc startk) b >>= λ b'.
            ok (if ltb (len b') scan_buffer_size then record b' { tree_end = true } else b'))
        else ok b

    -- From the entry after the last one consumed on, if the buffer is consumed and the tree goes on.
    unfoldable pub refill : (ℕ → List (ℕ × V)) → Buffer P → Run (Buffer P)
    unfolding fill_scan_buffer
    refill scan_asc b =
        if is_nil b.rest && not b.tree_end
        then elim b.consumed [
          | [] ↦ fault
          | e ∷ _ ↦
              fill_scan_buffer scan_asc (add64 e.0 1)
                (record { consumed = []; rest = []; tree_end = b.tree_end })
        ]
        else ok b

  module _ (processor : List (ℕ × P) → Bool) where
    -- The loop while both buffers have entries.
    unfoldable pub merge_buffers :
        List (ℕ × P)
        → Bool
        → Bool
        → List (ℕ × P)
        → List (ℕ × P)
        → List (ℕ × P)
        → List (ℕ × P)
        → Walk P (Buffer P × Buffer P)
    merge_buffers trace he ce hs [] cs cold = going trace (
      record { consumed = hs; rest = []; tree_end = he },
      record { consumed = cs; rest = cold; tree_end = ce },
    )
    merge_buffers trace he ce hs (x ∷ hot) cs [] = going trace (
      record { consumed = hs; rest = x ∷ hot; tree_end = he },
      record { consumed = cs; rest = []; tree_end = ce },
    )
    merge_buffers trace he ce hs (x ∷ hot) cs (y ∷ cold) = elim (leb x.0 y.0) [
      | true ↦ elim (processor (x ∷ trace)) [
        | true ↦ ended (x ∷ trace)
        | false ↦ merge_buffers (x ∷ trace) he ce (x ∷ hs) hot cs (y ∷ cold)
      ]
      | false ↦ elim (processor (y ∷ trace)) [
        | true ↦ ended (y ∷ trace)
        | false ↦ merge_buffers (y ∷ trace) he ce hs (x ∷ hot) (y ∷ cs) cold
      ]
    ]

    -- One buffer to its end.
    unfoldable pub drain : List (ℕ × P) → List (ℕ × P) → List (ℕ × P) → Walk P (List (ℕ × P))
    drain trace consumed [] = going trace consumed
    drain trace consumed (x ∷ rest) = elim (processor (x ∷ trace)) [
      | true ↦ ended (x ∷ trace)
      | false ↦ drain (x ∷ trace) (x ∷ consumed) rest
    ]

    -- One buffer, where the other one and its tree are at their end.
    unfoldable pub drain_after : List (ℕ × P) → Buffer P → Buffer P → Walk P (Buffer P)
    unfolding drain
    drain_after trace b other =
        if not (is_nil b.rest) && is_nil other.rest && other.tree_end
        then and_then (drain trace b.consumed b.rest)
            (λ t consumed. going t (record b { consumed = consumed; rest = [] }))
        else going trace b

    -- What a round of the loop does before it refills.
    unfoldable pub walk : List (ℕ × P) → Buffer P → Buffer P → Walk P (Buffer P × Buffer P)
    unfolding merge_buffers drain_after
    walk trace hot cold =
        and_then
          (merge_buffers trace hot.tree_end cold.tree_end hot.consumed hot.rest cold.consumed
            cold.rest)
          (λ t bs.
            and_then (drain_after t bs.0 bs.1)
              (λ t h. and_then (drain_after t bs.1 h) (λ t c. going t (h, c))))

    module _ {V W : Type 0} (read : V → Run P) (hot_scan : ℕ → List (ℕ × V)) (read' : W → Run P)
        (cold_scan : ℕ → List (ℕ × W)) where
      unfoldable pub scan_round :
          List (ℕ × P) → Buffer P → Buffer P → Run (Walk P (Buffer P × Buffer P))
      unfolding walk refill
      scan_round trace hot cold = elim (walk trace hot cold) [
        | ended t ↦ ok (ended t)
        | going t (h, c) ↦ refill read hot_scan h >>= λ h'. refill read' cold_scan c >>= λ c'. ok (
            if is_nil c'.rest && c'.tree_end && is_nil h'.rest && h'.tree_end
            then ended t
            else going t (h', c'))
      ]

      -- `none` means that the fuel ran out.
      unfoldable pub scan_loop :
          ℕ → List (ℕ × P) → Buffer P → Buffer P → Run (Option (List (ℕ × P)))
      unfolding scan_round
      scan_loop zero trace hot cold = ok none
      scan_loop (suc fuel) trace hot cold = scan_round trace hot cold >>= λ w. elim w [
        | ended t ↦ ok (some t)
        | going t (h, c) ↦ scan_loop fuel t h c
      ]

      -- What the processor was handed, the latest first.
      unfoldable pub scan_from : ℕ → ℕ → Run (Option (List (ℕ × P)))
      unfolding scan_loop fill_scan_buffer
      scan_from fuel start_key =
          let b : Buffer P = record { consumed = []; rest = []; tree_end = false } in
          fill_scan_buffer read hot_scan start_key b >>= λ hot.
          fill_scan_buffer read' cold_scan start_key b >>= λ cold. scan_loop fuel [] hot cold

module _ {P : Type 0} (H : Index (HotRecord P)) (C : Index P) where
  unfoldable pub scan : (List (ℕ × P) → Bool) → ℕ → TwoTree H C → ℕ → Run (Option (List (ℕ × P)))
  unfolding scan_from
  scan processor fuel s start_key =
      scan_from processor read_hot (H.scan_asc s.hot) read_cold (C.scan_asc s.cold) fuel start_key
