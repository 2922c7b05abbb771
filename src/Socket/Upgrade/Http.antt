-- ===== src/Socket/Upgrade/Http.antt =====
-- What `dime_socket_init_ws` uses of the C library's functions on texts.
use dime.Base.{
  ℕ, zero, suc, ◌+◌, ◌-◌, ◌*◌, ◌/◌, ◌%◌, Bool, true, false, not, ◌&&◌, ◌||◌, Option, none, some,
  List, [], ◌∷◌, ◌++◌, ltb, leb, ◌==◌, if◌then◌else◌, length,
}

-- The bytes of a C string: up to the first zero.
unfoldable pub c_string : List ℕ → List ℕ
c_string [] = []
c_string (c ∷ cs) = let rest = c_string cs in if c == 0 then [] else c ∷ rest

abbrev pub starts_with : List ℕ → List ℕ → Bool
starts_with [] hay = true
starts_with (c ∷ cs) [] = false
starts_with (c ∷ cs) (d ∷ ds) = c == d && starts_with cs ds

-- `strstr(hay, needle) != NULL`
unfoldable pub contains : List ℕ → List ℕ → Bool
contains needle [] = starts_with needle []
contains needle (c ∷ cs) = starts_with needle (c ∷ cs) || contains needle cs

-- The text in front of the first ": ", and behind it.
split_rest : ℕ → Option (List ℕ × List ℕ) → Option (List ℕ × List ℕ)
split_rest c none = none
split_rest c (some (key, val)) = some (c ∷ key, val)

unfoldable pub split_colon : List ℕ → Option (List ℕ × List ℕ)
unfolding split_rest
split_colon [] = none
split_colon (c ∷ []) = none
split_colon (c ∷ d ∷ cs) =
    let rest = split_colon (d ∷ cs) in
    if c == b':' && d == b' ' then some ([], cs) else split_rest c rest

abbrev pub is_line_end : ℕ → Bool
is_line_end c = c == 13 || c == 10

-- `strtok_r(…, "\r\n", …)`, again and again: the lines that are not empty.
unfoldable pub add_line : List ℕ → List (List ℕ) → List (List ℕ)
add_line [] ls = ls
add_line (c ∷ cs) ls = (c ∷ cs) ∷ ls

unfoldable pub parts : List ℕ → List ℕ × List (List ℕ)
parts [] = ([], [])
parts (c ∷ cs) =
    let (line, ls) = parts cs in if is_line_end c then ([], add_line line ls) else (c ∷ line, ls)

unfoldable pub lines : List ℕ → List (List ℕ)
unfolding parts add_line
lines cs = let (line, ls) = parts cs in add_line line ls

-- Conversions of `sscanf`.
abbrev pub is_space : ℕ → Bool
is_space c = c == 32 || (leb 9 c && leb c 13)

unfoldable pub skip_spaces : List ℕ → List ℕ
skip_spaces [] = []
skip_spaces (c ∷ cs) = let rest = skip_spaces cs in if is_space c then rest else c ∷ cs

-- `%7s`, with 7 as the first argument: the bytes, and what is left.
unfoldable pub word : ℕ → List ℕ → List ℕ × List ℕ
word zero cs = ([], cs)
word (suc n) [] = ([], [])
word (suc n) (c ∷ cs) =
    let (w, rest) = word n cs in if is_space c then ([], c ∷ cs) else (c ∷ w, rest)

-- An `int`; one that does not fit into 32 bits is undefined in C, and is itself here.
pub record Signed : Type 0 where
  pub negative : Bool
  pub magnitude : ℕ

abbrev pub is_digit : ℕ → Bool
is_digit c = leb 48 c && leb c 57

-- Some digits, with their number, their value and what is left.
unfoldable pub digits : ℕ → ℕ → List ℕ → ℕ × ℕ × List ℕ
digits n acc [] = (n, acc, [])
digits n acc (c ∷ cs) =
    let rest = digits (n + 1) (acc * 10 + (c - 48)) cs in
    if is_digit c then rest else (n, acc, c ∷ cs)

unsigned_int : Bool → ℕ × ℕ × List ℕ → Option (Signed × List ℕ)
unsigned_int negative (n, v, rest) =
    if n == 0
    then none
    else some (record { negative = negative && not (v == 0); magnitude = v }, rest)

signed_int : List ℕ → Option (Signed × List ℕ)
signed_int [] = none
signed_int (c ∷ cs) =
    if c == b'-'
    then unsigned_int true (digits 0 0 cs)
    else if c == b'+'
    then unsigned_int false (digits 0 0 cs)
    else unsigned_int false (digits 0 0 (c ∷ cs))

-- `%d`
unfoldable pub read_int : List ℕ → Option (Signed × List ℕ)
unfolding signed_int unsigned_int
read_int cs = signed_int (skip_spaces cs)

-- Text that must stand there.
unfoldable pub literal : List ℕ → List ℕ → Option (List ℕ)
literal [] cs = some cs
literal (a ∷ as') [] = none
literal (a ∷ as') (c ∷ cs) = if a == c then literal as' cs else none

pub record RequestLine : Type 0 where
  pub method : List ℕ
  pub major : Signed
  pub minor : Signed

minor_of : List ℕ → Signed → Option (Signed × List ℕ) → Option RequestLine
minor_of method major none = none
minor_of method major (some (minor, rest)) =
    some (record { method = method; major = major; minor = minor })

dot_of : List ℕ → Signed → Option (List ℕ) → Option RequestLine
dot_of method major none = none
dot_of method major (some rest) = minor_of method major (read_int rest)

major_of : List ℕ → Option (Signed × List ℕ) → Option RequestLine
major_of method none = none
major_of method (some (major, rest)) = dot_of method major (literal (b'.' ∷ []) rest)

version_of : List ℕ → Option (List ℕ) → Option RequestLine
version_of method none = none
version_of method (some rest) = major_of method (read_int rest)

target_of : List ℕ → List ℕ × List ℕ → Option RequestLine
target_of method ([], rest) = none
target_of method (c ∷ cs, rest) =
    version_of method (literal (b'H' ∷ b'T' ∷ b'T' ∷ b'P' ∷ b'/' ∷ []) (skip_spaces rest))

method_of : List ℕ × List ℕ → Option RequestLine
method_of ([], rest) = none
method_of (c ∷ cs, rest) = target_of (c ∷ cs) (word (length rest) (skip_spaces rest))

-- `sscanf(line, "%7s %*s HTTP/%d.%d", …) == 3`
unfoldable pub request_line : List ℕ → Option RequestLine
unfolding method_of target_of version_of major_of dot_of minor_of literal read_int word skip_spaces
    digits
request_line line = method_of (word 7 (skip_spaces line))

-- `major * 10 + minor < 11`
unfoldable pub too_old : Signed → Signed → Bool
too_old major minor = ltb (10 * up major + up minor) (11 + 10 * down major + down minor)
  where
    up : Signed → ℕ
    up n = if n.negative then 0 else n.magnitude

    down : Signed → ℕ
    down n = if n.negative then n.magnitude else 0

-- The decimal digits of a number, for as many digits as the fuel.
unfoldable pub decimal : ℕ → ℕ → List ℕ
decimal zero v = []
decimal (suc fuel) v =
    let rest = decimal fuel (v / 10) in
    if ltb v 10 then (48 + v) ∷ [] else rest ++ ((48 + v % 10) ∷ [])

-- `%d`
unfoldable pub print_int : Signed → List ℕ
print_int n = let ds = decimal (n.magnitude + 1) n.magnitude in if n.negative then b'-' ∷ ds else ds
