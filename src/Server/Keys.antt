-- ===== src/Server/Keys.antt =====
-- server/server.c: how the keys of the two tables are compared and hashed. A descriptor is at least 0,
-- and a byte of a name is a `char`, which is signed.
use Prim.Native.Nat.{bit_xor}
use dime.Base.{
  ℕ, ◌+◌, ◌-◌, ◌<◌, ◌^◌, ◌≢◌, Bool, List, [], ◌∷◌, mul_size, arith, ◌==◌, ltb, if◌then◌else◌,
}

-- `cmp_fd(a, b) == 0`
pub cmp_fd : ℕ → ℕ → Bool
cmp_fd a b = b == a

-- `hash_fd`, in 64 bits
pub hash_fd : ℕ → ℕ
hash_fd a = mul_size a 11400714819323198393

-- A `char` that is converted to `uint64_t`.
extended : ℕ → ℕ
extended s = if ltb s 128 then s else s + (2 ^ 64 - 256)

hash_from : ℕ → List ℕ → ℕ
hash_from y [] = y
hash_from y (s ∷ ss) = hash_from (mul_size (bit_xor y (extended s)) 1099511628211) ss

-- `hash_name`, up to the name's end
pub hash_name : List ℕ → ℕ
hash_name name = hash_from 14695981039346656037 name

-- Two descriptors that differ have different hashes: the factor is odd, and has an inverse.
pub hash_fd_differ : (a b : ℕ) → a < 2 ^ 31 → b < 2 ^ 31 → a ≢ b → hash_fd a ≢ hash_fd b
unfolding hash_fd
hash_fd_differ a b small_a small_b differ h = differ (omega arith)
