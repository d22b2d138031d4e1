-- ===== src/Base/Int.antt =====
-- Signed values that the system calls return, and unsigned 64-bit arithmetic.
use Prim.Native.Nat.{ℕ, ◌+◌, ◌-◌, ◌%◌, ◌^◌, ◌<◌, ◌≤◌}
use mathlib.Core.Path.{◌≡◌}
use native.Mathlib.Omega.{arith}

-- `negsuc n` is -(n + 1).
pub data ℤ : Type 0 where
  pos : ℕ → ℤ
  negsuc : ℕ → ℤ

abbrev pub size_mod : ℕ
size_mod = 2 ^ 64

-- `a + b` and `a - b` of type size_t.
abbrev pub add_size : ℕ → ℕ → ℕ
add_size a b = (a + b) % size_mod

abbrev pub sub_size : ℕ → ℕ → ℕ
sub_size a b = (a + size_mod - b) % size_mod

abbrev pub int_mod : ℕ
int_mod = 2 ^ 32

-- `a + b` and `a - b` of an atomic int, which wraps around, modulo 2 ^ 32.
abbrev pub add_int : ℕ → ℕ → ℕ
add_int a b = (a + b) % int_mod

abbrev pub sub_int : ℕ → ℕ → ℕ
sub_int a b = (a + int_mod - b) % int_mod

pub sub_size-eq-sub : (a b : ℕ) → a < size_mod → b ≤ a → sub_size a b ≡ a - b
sub_size-eq-sub a b h k = omega arith
