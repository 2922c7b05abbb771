-- ===== src/Socket/Bytes.antt =====
-- Big-endian numbers, as `htonl`, `ntohl` and the shifts of server/socket.c lay them out.
use dime.Base.{ℕ, ◌+◌, ◌*◌, ◌/◌, ◌%◌, ◌^◌, ◌≡◌, List, [], ◌∷◌, arith}

-- The number that bytes stand for, the first the highest.
abbrev from_digits : ℕ → List ℕ → ℕ
from_digits acc [] = acc
from_digits acc (b ∷ bs) = from_digits (acc * 256 + b) bs

abbrev pub from_be : List ℕ → ℕ
from_be bs = from_digits 0 bs

abbrev pub be16 : ℕ → List ℕ
be16 n = n / 2 ^ 8 % 256 ∷ n % 256 ∷ []

abbrev pub be32 : ℕ → List ℕ
be32 n = n / 2 ^ 24 % 256 ∷ n / 2 ^ 16 % 256 ∷ be16 n

abbrev pub be64 : ℕ → List ℕ
be64 n = n / 2 ^ 56 % 256 ∷ n / 2 ^ 48 % 256 ∷ n / 2 ^ 40 % 256 ∷ n / 2 ^ 32 % 256 ∷ be32 n

pub from_be-be16 : (n : ℕ) → from_be (be16 n) ≡ n % 2 ^ 16
from_be-be16 n = omega arith

pub from_be-be32 : (n : ℕ) → from_be (be32 n) ≡ n % 2 ^ 32
from_be-be32 n = omega arith

pub from_be-be64 : (n : ℕ) → from_be (be64 n) ≡ n % 2 ^ 64
from_be-be64 n = omega arith
