-- ===== src/Main/Text.antt =====
-- The functions of the C library on texts that server/main.c calls: `strtok` and `strtoul`.
use dime.Base.{
  ℕ, ◌+◌, ◌-◌, ◌*◌, ◌%◌, ◌^◌, Bool, true, false, ◌&&◌, ◌||◌, Option, none, some, List, [], ◌∷◌, ltb,
  leb, ◌==◌, if◌then◌else◌,
}

abbrev pub Text : Type 0
Text = List ℕ

-- `strcmp(a, b) == 0`
pub same_text : Text → Text → Bool
same_text [] [] = true
same_text (a ∷ as') (b ∷ bs) = a == b && same_text as' bs
same_text _ _ = false

-- The bytes of a token: up to the first delimiter, and what stands behind that.
pub token : ℕ → Text → Text
token delim [] = []
token delim (c ∷ cs) = let rest = token delim cs in if c == delim then [] else c ∷ rest

pub behind : ℕ → Text → Text
behind delim [] = []
behind delim (c ∷ cs) = let rest = behind delim cs in if c == delim then cs else rest

-- The delimiters in front of a token.
pub skip_delims : ℕ → Text → Text
skip_delims delim [] = []
skip_delims delim (c ∷ cs) = let rest = skip_delims delim cs in if c == delim then rest else c ∷ cs

token_of : ℕ → Text → Option (Text × Text)
token_of delim [] = none
token_of delim (c ∷ cs) = some (token delim (c ∷ cs), behind delim (c ∷ cs))

-- `strtok` with one delimiter, on a text or on what an earlier call has left: the token, if there is
-- one, and what is left.
pub strtok : ℕ → Text → Option (Text × Text)
strtok delim cs = token_of delim (skip_delims delim cs)

-- What `strtok` makes of the text it is called with: a zero stands behind the first token.
pub cut : ℕ → Text → Text
cut delim [] = []
cut delim (c ∷ cs) =
    let rest = cut delim cs in if c == delim then c ∷ rest else token delim (c ∷ cs)

abbrev pub is_space : ℕ → Bool
is_space c = c == 32 || (leb 9 c && leb c 13)

-- The value of a digit, at most 36.
pub digit : ℕ → ℕ
digit c =
    if leb 48 c && leb c 57
    then c - 48
    else if leb 97 c && leb c 122
    then c - 87
    else if leb 65 c && leb c 90
    then c - 55
    else 36

-- The digits in front of what is none; whether there were any is of no account here.
pub digits_value : ℕ → ℕ → Text → ℕ
digits_value base acc [] = acc
digits_value base acc (c ∷ cs) =
    let rest = digits_value base (acc * base + digit c) cs in
    if ltb (digit c) base then rest else acc

is_x : ℕ → Bool
is_x c = c == b'x' || c == b'X'

-- Base 0: "0x" before a digit means hexadecimal, "0" octal.
pub unsigned_value : Text → ℕ
unsigned_value (z ∷ x ∷ d ∷ cs) =
    if z == b'0'
    then (if is_x x && ltb (digit d) 16
        then digits_value 16 0 (d ∷ cs)
        else digits_value 8 0 (z ∷ x ∷ d ∷ cs))
    else digits_value 10 0 (z ∷ x ∷ d ∷ cs)
unsigned_value (z ∷ cs) =
    if z == b'0' then digits_value 8 0 (z ∷ cs) else digits_value 10 0 (z ∷ cs)
unsigned_value [] = 0

-- `ULONG_MAX` where the digits say more; a minus sign negates within 64 bits.
saturated : ℕ → ℕ
saturated v = if ltb v (2 ^ 64) then v else 2 ^ 64 - 1

negated : ℕ → ℕ
negated v = if ltb v (2 ^ 64) then (2 ^ 64 - v) % 2 ^ 64 else 2 ^ 64 - 1

signed_value : Text → ℕ
signed_value [] = 0
signed_value (c ∷ cs) =
    if c == b'-'
    then negated (unsigned_value cs)
    else if c == b'+'
    then saturated (unsigned_value cs)
    else saturated (unsigned_value (c ∷ cs))

skip_spaces : Text → Text
skip_spaces [] = []
skip_spaces (c ∷ cs) = let rest = skip_spaces cs in if is_space c then rest else c ∷ cs

-- `strtoul(s, NULL, 0)`
pub strtoul : Text → ℕ
strtoul cs = signed_value (skip_spaces cs)
