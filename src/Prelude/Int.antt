-- ===== src/Prelude/Int.antt =====
-- Signed integers (`int`, `int64`, `time.Duration`) over the native numbers, under the library's
-- names.
use Prim.Native.Nat.{ℕ, zero, suc, ◌+◌, ◌≤◌}
use mathlib.Core.Path.{◌≡◌, refl}
use mathlib.Core.Logic.{◌↔◌}
use mathlib.Core.Bool.{Bool, true, false}
use native.Mathlib.Omega.{arith}
use go_pkicmp_ng.Prelude.Tests.{ltb, ◌==◌}

-- `negsuc n` is -(n + 1).
pub data ℤ : Type 0 where
  pos : ℕ → ℤ
  negsuc : ℕ → ℤ

abbrev pub pos_part : ℤ → ℕ
pos_part (pos n) = n
pos_part (negsuc n) = 0

abbrev pub neg_part : ℤ → ℕ
neg_part (pos n) = 0
neg_part (negsuc n) = suc n

-- `a + 1` and `a - 1`.
abbrev pub incr : ℤ → ℤ
incr (pos n) = pos (suc n)
incr (negsuc zero) = pos zero
incr (negsuc (suc n)) = negsuc n

abbrev pub decr : ℤ → ℤ
decr (pos (suc n)) = pos n
decr (pos zero) = negsuc zero
decr (negsuc n) = negsuc (suc n)

-- `a < b`, `a == b`
abbrev pub ltb_ℤ : ℤ → ℤ → Bool
ltb_ℤ a b = ltb (pos_part a + neg_part b) (pos_part b + neg_part a)

abbrev pub eqb_ℤ : ℤ → ℤ → Bool
eqb_ℤ (pos a) (pos b) = a == b
eqb_ℤ (negsuc a) (negsuc b) = a == b
eqb_ℤ _ _ = false

infix 50 ◌≤ℤ◌ ◌<ℤ◌
abbrev pub ◌≤ℤ◌ : ℤ → ℤ → Type 0
a ≤ℤ b = pos_part a + neg_part b ≤ pos_part b + neg_part a

abbrev pub ◌<ℤ◌ : ℤ → ℤ → Type 0
a <ℤ b = suc (pos_part a + neg_part b) ≤ pos_part b + neg_part a

pub decr-incr : (a : ℤ) → decr (incr a) ≡ a
decr-incr (pos n) = refl
decr-incr (negsuc zero) = refl
decr-incr (negsuc (suc n)) = refl

pub eqb_ℤ_iff : (a b : ℤ) → (eqb_ℤ a b ≡ true) ↔ (a ≡ b)
eqb_ℤ_iff a b = ground arith
