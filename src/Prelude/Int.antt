-- ===== src/Prelude/Int.antt =====
-- Python's `int` where the program admits a negative one; `negsuc n` is -(n + 1).
use Prim.Native.Nat.{ℕ}
use mathlib.Core.Path.{◌≡◌}
use mathlib.Core.Bool.{Bool, true, false}
use native.Mathlib.Omega.{arith}
use pyiamkit.Prelude.Tests.{leb}

pub data ℤ : Type 0 where
  pos : ℕ → ℤ
  negsuc : ℕ → ℤ

-- `n < 0`.
abbrev pub is_negative : ℤ → Bool
is_negative (ℤ.pos n) = false
is_negative (ℤ.negsuc n) = true

-- `m <= n`.
abbrev pub int_leb : ℤ → ℤ → Bool
int_leb (ℤ.pos m) (ℤ.pos n) = leb m n
int_leb (ℤ.pos m) (ℤ.negsuc n) = false
int_leb (ℤ.negsuc m) (ℤ.pos n) = true
int_leb (ℤ.negsuc m) (ℤ.negsuc n) = leb n m

pub int_leb_refl : (n : ℤ) → int_leb n n ≡ true
int_leb_refl (ℤ.pos n) = ground arith
int_leb_refl (ℤ.negsuc n) = ground arith

pub int_leb_trans : (k m n : ℤ) → int_leb k m ≡ true → int_leb m n ≡ true → int_leb k n ≡ true
int_leb_trans (ℤ.pos k) (ℤ.pos m) (ℤ.pos n) h i = ground arith
int_leb_trans (ℤ.pos k) (ℤ.pos m) (ℤ.negsuc n) h i = ground arith
int_leb_trans (ℤ.pos k) (ℤ.negsuc m) n h i = absurd (cc h)
int_leb_trans (ℤ.negsuc k) m (ℤ.pos n) h i = ground arith
int_leb_trans (ℤ.negsuc k) (ℤ.pos m) (ℤ.negsuc n) h i = absurd (cc i)
int_leb_trans (ℤ.negsuc k) (ℤ.negsuc m) (ℤ.negsuc n) h i = ground arith

-- Of two integers, one is up to the other.
pub int_leb-total : (m n : ℤ) → int_leb m n ≡ false → int_leb n m ≡ true
int_leb-total (ℤ.pos m) (ℤ.pos n) h = ground arith
int_leb-total (ℤ.pos m) (ℤ.negsuc n) h = ground arith
int_leb-total (ℤ.negsuc m) (ℤ.pos n) h = ground arith
int_leb-total (ℤ.negsuc m) (ℤ.negsuc n) h = ground arith
