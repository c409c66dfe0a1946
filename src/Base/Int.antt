-- ===== src/Base/Int.antt =====
-- i64 values as integers, and the casts between u64, usize and i64 (`as`, which wraps).
use Prim.Native.Nat.{ℕ, ◌-◌, ◌≤◌}
use mathlib.Core.Bool.{Bool, true, false}
use mathlib.Core.Path.{◌≡◌}
use native.Mathlib.Omega.{arith}
use ctwatch.Base.Tests.{ltb, leb, if◌then◌else◌}

-- `negsuc n` is -(n + 1).
pub data ℤ : Type 0 where
  pos : ℕ → ℤ
  negsuc : ℕ → ℤ

abbrev pub ltb_ℤ : ℤ → ℤ → Bool
ltb_ℤ (pos a) (pos b) = ltb a b
ltb_ℤ (pos a) (negsuc b) = false
ltb_ℤ (negsuc a) (pos b) = true
ltb_ℤ (negsuc a) (negsuc b) = ltb b a

abbrev pub leb_ℤ : ℤ → ℤ → Bool
leb_ℤ (pos a) (pos b) = leb a b
leb_ℤ (pos a) (negsuc b) = false
leb_ℤ (negsuc a) (pos b) = true
leb_ℤ (negsuc a) (negsuc b) = leb b a

abbrev pub u64_mod : ℕ
u64_mod = 18446744073709551616

abbrev pub i64_mod : ℕ
i64_mod = 9223372036854775808

-- `n as i64`, of a number below 2 ^ 64.
abbrev pub as_i64 : ℕ → ℤ
as_i64 n = if ltb n i64_mod then pos n else negsuc (u64_mod - 1 - n)

-- `z as u64`.
abbrev pub as_u64 : ℤ → ℕ
as_u64 (pos n) = n
as_u64 (negsuc n) = u64_mod - 1 - n

-- The order, as a proposition that computes to one on the natural numbers.
infix 50 ◌≤ℤ◌
abbrev pub ◌≤ℤ◌ : ℤ → ℤ → Type 0
◌≤ℤ◌ (pos a) (pos b) = a ≤ b
◌≤ℤ◌ (pos a) (negsuc b) = ⊥
◌≤ℤ◌ (negsuc a) (pos b) = Unit
◌≤ℤ◌ (negsuc a) (negsuc b) = b ≤ a

pub le_ℤ_refl : (a : ℤ) → a ≤ℤ a
le_ℤ_refl (pos a) = omega arith
le_ℤ_refl (negsuc a) = omega arith

pub le_ℤ_trans : (a b c : ℤ) → a ≤ℤ b → b ≤ℤ c → a ≤ℤ c
le_ℤ_trans (pos a) (pos b) (pos c) h k = omega arith
le_ℤ_trans (pos a) (pos b) (negsuc c) h k = k
le_ℤ_trans (pos a) (negsuc b) c h k = absurd h
le_ℤ_trans (negsuc a) b (pos c) h k = tt
le_ℤ_trans (negsuc a) (pos b) (negsuc c) h k = absurd k
le_ℤ_trans (negsuc a) (negsuc b) (negsuc c) h k = omega arith

pub ltb_ℤ→le : (a b : ℤ) → ltb_ℤ a b ≡ true → a ≤ℤ b
ltb_ℤ→le (pos a) (pos b) h = ground arith
ltb_ℤ→le (pos a) (negsuc b) h = ground arith
ltb_ℤ→le (negsuc a) (pos b) h = tt
ltb_ℤ→le (negsuc a) (negsuc b) h = ground arith
