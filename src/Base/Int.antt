-- ===== src/Base/Int.antt =====
-- Signed integers (Go's `int` and `time.Duration`) over the native numbers.
-- The code compares them, takes `max` and divides by ten: nothing here can overflow.
use Prim.Native.Nat.{ℕ, zero, suc, ◌+◌, ◌/◌, ◌≤◌, ◌<◌}
use mathlib.Core.Path.{◌≡◌}
use mathlib.Core.Logic.{◌↔◌}
use mathlib.Core.Bool.{Bool, true, false}
use native.Mathlib.Omega.{arith}
use mod_sec_intl_wace_lib.Base.Tests.{if◌then◌else◌, leb, ltb, ◌==◌}

-- `negsuc n` is -(n + 1).
pub data ℤ : Type 0 where
  pos : ℕ → ℤ
  negsuc : ℕ → ℤ

abbrev pub pos_part : ℤ → ℕ
pos_part (pos n) = n
pos_part (negsuc n) = 0

abbrev pub neg_part : ℤ → ℕ
neg_part (pos n) = 0
neg_part (negsuc n) = suc n

infix 50 ◌≤ℤ◌ ◌<ℤ◌
abbrev pub ◌≤ℤ◌ : ℤ → ℤ → Type 0
a ≤ℤ b = pos_part a + neg_part b ≤ pos_part b + neg_part a

abbrev pub ◌<ℤ◌ : ℤ → ℤ → Type 0
a <ℤ b = pos_part a + neg_part b < pos_part b + neg_part a

-- The tests `a < b`, `a <= b` and `a == b` of the code.
unfoldable pub ltb_int : ℤ → ℤ → Bool
ltb_int a b = ltb (pos_part a + neg_part b) (pos_part b + neg_part a)

unfoldable pub leb_int : ℤ → ℤ → Bool
leb_int a b = leb (pos_part a + neg_part b) (pos_part b + neg_part a)

unfoldable pub eqb_int : ℤ → ℤ → Bool
eqb_int (pos a) (pos b) = a == b
eqb_int (negsuc a) (negsuc b) = a == b
eqb_int (pos a) (negsuc b) = false
eqb_int (negsuc a) (pos b) = false

pub eqb_int_iff : (a b : ℤ) → (eqb_int a b ≡ true) ↔ (a ≡ b)
unfolding eqb_int
eqb_int_iff (pos a) (pos b) = ground arith
eqb_int_iff (negsuc a) (negsuc b) = ground arith
eqb_int_iff (pos a) (negsuc b) = ground arith
eqb_int_iff (negsuc a) (pos b) = ground arith

-- Go's `max` and its division by ten, which rounds towards zero.
unfoldable pub max_int : ℤ → ℤ → ℤ
unfolding ltb_int
max_int a b = if ltb_int a b then b else a

unfoldable pub div10 : ℤ → ℤ
div10 (pos n) = pos (n / 10)
div10 (negsuc n) = let q = suc n / 10 in elim q [ zero ↦ pos 0 | suc k ↦ negsuc k ]

-- Between n and n + 1 there is no integer.
pub int_tight : (n : ℕ) (a : ℤ) → pos n <ℤ a → a ≤ℤ pos (suc n) → a ≡ pos (suc n)
int_tight n (pos m) h k = ground arith
int_tight n (negsuc m) h k = absurd (omega arith)

pub ltb_int_iff : (a b : ℤ) → (ltb_int a b ≡ true) ↔ (a <ℤ b)
unfolding ltb_int
ltb_int_iff a b = (λ e. ground arith, λ h. ground arith)

pub leb_int_iff : (a b : ℤ) → (leb_int a b ≡ true) ↔ (a ≤ℤ b)
unfolding leb_int
leb_int_iff a b = (λ e. ground arith, λ h. ground arith)

pub leb_int_false : (a b : ℤ) → leb_int a b ≡ false → b <ℤ a
unfolding leb_int
leb_int_false a b e = ground arith
