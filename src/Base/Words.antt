-- ===== src/Base/Words.antt =====
-- `size_t` arithmetic, which wraps at 2 ^ 64.
use Prim.Native.Nat.{ℕ, ◌+◌, ◌-◌, ◌*◌, ◌%◌, ◌^◌}

abbrev pub add_size : ℕ → ℕ → ℕ
add_size a b = (a + b) % 2 ^ 64

abbrev pub sub_size : ℕ → ℕ → ℕ
sub_size a b = (a + 2 ^ 64 - b) % 2 ^ 64

abbrev pub mul_size : ℕ → ℕ → ℕ
mul_size a b = a * b % 2 ^ 64

-- the bit pattern of -1, as a `size_t` or `ssize_t`
abbrev pub size_max : ℕ
size_max = 2 ^ 64 - 1
