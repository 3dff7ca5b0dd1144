-- ===== src/Prelude/Words.antt =====
-- Unsigned words of the program. Arithmetic writes its wrap-around out.
use Prim.Native.Nat.{ℕ, zero, suc, ◌+◌, ◌-◌, ◌/◌, ◌%◌, ◌^◌}
use mathlib.Core.List.{List, [], ◌∷◌}
use tree.Prelude.Tests.{◌==◌, if◌then◌else◌}

abbrev pub u64_mod : ℕ
u64_mod = 2 ^ 64

abbrev pub add64 : ℕ → ℕ → ℕ
add64 a b = (a + b) % u64_mod

abbrev pub sub64 : ℕ → ℕ → ℕ
sub64 a b = (a + u64_mod - b) % u64_mod

-- A total map with one entry replaced.
abbrev pub update {ℓ} : {A : Type ℓ} → (ℕ → A) → ℕ → A → ℕ → A
update f k v j = if k == j then v else f j

abbrev pub u16_mod : ℕ
u16_mod = 2 ^ 16

abbrev pub add16 : ℕ → ℕ → ℕ
add16 a b = (a + b) % u16_mod

abbrev pub sub16 : ℕ → ℕ → ℕ
sub16 a b = (a + u16_mod - b) % u16_mod

abbrev pub u32_mod : ℕ
u32_mod = 2 ^ 32

abbrev pub sub32 : ℕ → ℕ → ℕ
sub32 a b = (a + u32_mod - b) % u32_mod

-- The first bytes of a word in memory, the lowest first.
abbrev pub word_bytes : ℕ → ℕ → List ℕ
word_bytes zero w = []
word_bytes (suc n) w = w % 256 ∷ word_bytes n (w / 256)
