-- ===== src/Prelude/Int.antt =====
-- Integers over the native numbers, where a difference can be negative. `negsuc n` is -(n + 1).
use Prim.Native.Nat.{ℕ, ◌+◌, ◌-◌, ◌≤◌}
use mathlib.Core.Bool.{true}
use mathlib.Core.Path.{◌≡◌}
use mathlib.Core.Logic.{inl, inr}
use native.Mathlib.Omega.{arith}
use paraspace_core.Prelude.Tests.{leb, if◌then◌else◌, Bool-cases}

pub data ℤ : Type 0 where
  pos : ℕ → ℤ
  negsuc : ℕ → ℤ

-- a - b
abbrev pub sub_ℕ : ℕ → ℕ → ℤ
sub_ℕ a b = if leb b a then pos (a - b) else negsuc (b - a - 1)

-- A natural number is at most an integer.
infix 50 ◌≤ℤ◌
abbrev pub ◌≤ℤ◌ : ℕ → ℤ → Type 0
n ≤ℤ pos m = n ≤ m
n ≤ℤ negsuc m = ⊥

pub le-sub_ℕ : (n a b : ℕ) → n + b ≤ a → n ≤ℤ sub_ℕ a b
le-sub_ℕ n a b h = let t : leb b a ≡ true = ground arith in rw t (omega arith)

pub add-le_of_le-sub_ℕ : (n a b : ℕ) → n ≤ℤ sub_ℕ a b → n + b ≤ a
add-le_of_le-sub_ℕ n a b h = elim (Bool-cases (leb b a)) [
  | inl t ↦ let h' : n ≤ a - b = rw t at h in ground arith
  | inr t ↦ absurd (rw t at h)
]
