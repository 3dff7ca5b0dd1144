-- ===== src/AntiCache/Lru.antt =====
-- backend/anti-caching/AntiCache.hpp: the list of the cached tuples by their use, linked through their nodes
-- both ways in a ring with `lru_head`. A node is an address; `tuple` tells what `key` and `payload` of the
-- node at an address hold, and is `none` at `lru_head` and where no node is.
use tree.Prelude.{ℕ, ◌==◌, not, ◌&&◌, Option, if◌then◌else◌, update}

abbrev pub null : ℕ
null = 0

-- `&lru_head`
abbrev pub lru_head : ℕ
lru_head = 1

pub record Heap (P : Type 0) : Type 0 where
  pub next : ℕ → ℕ
  pub prev : ℕ → ℕ
  pub tuple : ℕ → Option (ℕ × P)

module _ {P : Type 0} where
  unfoldable pub set_next : Heap P → ℕ → ℕ → Heap P
  set_next h p q = record h { next = update h.next p q }

  unfoldable pub set_prev : Heap P → ℕ → ℕ → Heap P
  set_prev h p q = record h { prev = update h.prev p q }

  unfoldable pub lru_remove_self : Heap P → ℕ → Heap P
  unfolding set_next set_prev
  lru_remove_self h node =
      if not (h.prev node == null) && not (h.next node == null)
      then (let h₁ = set_next h (h.prev node) (h.next node) in
          let h₂ = set_prev h₁ (h₁.next node) (h₁.prev node) in
          set_next (set_prev h₂ node null) node null)
      else h

  unfoldable pub lru_move_to_head : Heap P → ℕ → Heap P
  unfolding set_next set_prev lru_remove_self
  lru_move_to_head h node =
      let h₁ = lru_remove_self h node in
      let h₂ = set_prev (set_next h₁ node (h₁.next lru_head)) node lru_head in
      let h₃ = set_prev h₂ (h₂.next lru_head) node in set_next h₃ lru_head node

  unfoldable pub lru_move_to_tail : Heap P → ℕ → Heap P
  unfolding set_next set_prev lru_remove_self
  lru_move_to_tail h node =
      let h₁ = lru_remove_self h node in
      let h₂ = set_next h₁ node lru_head in
      let h₃ = set_prev h₂ node (h₂.prev lru_head) in
      let h₄ = set_next h₃ (h₃.prev lru_head) node in set_prev h₄ lru_head node
