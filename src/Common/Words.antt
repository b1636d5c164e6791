-- ===== src/Common/Words.antt =====
-- Unsigned arithmetic of a fixed width wraps: `size_t` has 64 bits, `unsigned` has 32.
use Prim.Native.Nat.{ℕ, ◌+◌, ◌-◌, ◌*◌, ◌%◌, ◌^◌}

abbrev pub size_mod : ℕ
size_mod = 2 ^ 64

abbrev pub add_size : ℕ → ℕ → ℕ
add_size a b = (a + b) % 2 ^ 64

-- The subtraction of ℕ stops at 0, so the modulus is added first.
abbrev pub sub_size : ℕ → ℕ → ℕ
sub_size a b = (a + 2 ^ 64 - b) % 2 ^ 64

abbrev pub mul_size : ℕ → ℕ → ℕ
mul_size a b = (a * b) % 2 ^ 64

abbrev pub u32 : ℕ → ℕ
u32 a = a % 2 ^ 32

abbrev pub u16 : ℕ → ℕ
u16 a = a % 2 ^ 16
