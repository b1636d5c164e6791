-- ===== src/Util.antt =====
-- src/Util.c: the next power of two, by smearing the top bit of `val - 1` to the right.
-- `unsigned` has 32 bits and wraps.
pub mod Smear
pub mod PowerOf2
mod Examples
use rawr.Common.{ℕ, ◌+◌, ◌-◌, ◌/◌, ◌%◌, ◌^◌, bit_or, u32}

-- `(val >> shift) | val`
pub smear : ℕ → ℕ → ℕ
smear shift val = bit_or (val / 2 ^ shift) val

pub next_power_of2 : ℕ → ℕ
unfolding smear
next_power_of2 val =
    u32 (smear 16 (smear 8 (smear 4 (smear 2 (smear 1 (u32 (val + 2 ^ 32 - 1)))))) + 1)
