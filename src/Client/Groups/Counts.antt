-- ===== src/Client/Groups/Counts.antt =====
-- How often an entry stands in an array, and what the array operations of server/client.c do to it.
use dime.Base.{
  ℕ, zero, suc, ◌+◌, ◌-◌, ◌<◌, ◌≡◌, ◌||◌, refl, ap, ◌∙◌, true, false, none, some, List, [], ◌∷◌,
  ◌++◌, arith, ◌==◌, if◌then◌else◌, get_or, set, take, length, length-set, get_or-set_self,
  get_or-set_ne, dec_lt,
}
use dime.World.{elem}
use dime.Client.Groups.{index_of, swap_remove}

abbrev pub hit : ℕ → ℕ → ℕ
hit x y = if y == x then 1 else 0

abbrev pub count : ℕ → List ℕ → ℕ
count x [] = 0
count x (y ∷ ys) = hit x y + count x ys

pub count-append : (x : ℕ) (xs ys : List ℕ) → count x (xs ++ ys) ≡ count x xs + count x ys
count-append x [] ys = omega arith
count-append x (y ∷ xs) ys = omega (arith, count-append x xs ys)

-- The test for membership says whether the count is 0.
pub elem-false : (x : ℕ) (xs : List ℕ) → elem x xs ≡ false → count x xs ≡ 0
elem-false x [] h = refl
elem-false x (y ∷ ys) h = ground (arith, elem-false x ys)

pub elem-true : (x : ℕ) (xs : List ℕ) → elem x xs ≡ true → 0 < count x xs
elem-true x [] h = cc
elem-true x (y ∷ ys) h = ground (arith, elem-true x ys)

pub count_zero-elem : (x : ℕ) (xs : List ℕ) → count x xs ≡ 0 → elem x xs ≡ false
count_zero-elem x [] h = refl
count_zero-elem x (y ∷ ys) h = ground (arith, count_zero-elem x ys)

-- A search fails on an entry that is not there, and otherwise finds it.
pub index_of-none : (x : ℕ) (xs : List ℕ) → index_of x xs ≡ none → count x xs ≡ 0
unfolding index_of
index_of-none x [] h = refl
index_of-none x (y ∷ ys) h = ground (arith, index_of-none x ys)

pub index_of-some :
    (x : ℕ) (xs : List ℕ) (i : ℕ) → index_of x xs ≡ some i → (i < length xs) × (get_or xs i 0 ≡ x)
unfolding index_of
index_of-some x [] i h = cc
index_of-some x (y ∷ ys) zero h = ground arith
index_of-some x (y ∷ ys) (suc i) h = ground (arith, index_of-some x ys i)

count-set :
    (x : ℕ) (xs : List ℕ) (i v : ℕ)
    → i < length xs
    → count x (set xs i v) + hit x (get_or xs i 0) ≡ count x xs + hit x v
count-set x [] i v h = absurd (omega arith)
count-set x (y ∷ ys) zero v h = omega arith
count-set x (y ∷ ys) (suc i) v h = omega (arith, count-set x ys i v (omega arith))

count-take :
    (x : ℕ) (xs : List ℕ) (n : ℕ)
    → length xs ≡ suc n
    → count x (take n xs) + hit x (get_or xs n 0) ≡ count x xs
count-take x [] n h = absurd (omega arith)
count-take x (y ∷ []) zero h = omega arith
count-take x (y ∷ z ∷ ys) zero h = absurd (omega arith)
count-take x (y ∷ ys) (suc n) h = omega (arith, count-take x ys n (omega arith))

-- Taking an entry out by moving the last one into its place removes that entry, once.
pub count-swap_remove :
    (x : ℕ) (xs : List ℕ) (i : ℕ)
    → i < length xs
    → count x (swap_remove i xs) + hit x (get_or xs i 0) ≡ count x xs
unfolding swap_remove
count-swap_remove x xs i h =
    let n = length xs - 1 in
    let last = get_or xs n 0 in
    omega (
      arith,
      count-set x xs i last h,
      count-take x (set xs i last) n (length-set xs i last ∙ whole),
      ap (hit x) (last_stays (dec_lt i n)),
    )
  where
    whole : length xs ≡ suc (length xs - 1)
    whole = omega arith

    last_stays :
        Dec (i < length xs - 1)
        → get_or (set xs i (get_or xs (length xs - 1) 0)) (length xs - 1) 0
          ≡ get_or xs (length xs - 1) 0
    last_stays (yes l) = get_or-set_ne xs i (length xs - 1) _ 0 (omega arith)
    last_stays (no l) =
        ap (λ k. get_or (set xs i (get_or xs (length xs - 1) 0)) k 0) (at_last l)
        ∙ get_or-set_self xs i _ 0 h
      where
        at_last : ¬ (i < length xs - 1) → length xs - 1 ≡ i
        at_last l = omega arith

pub elem-append : (x : ℕ) (xs ys : List ℕ) → elem x (xs ++ ys) ≡ (elem x xs || elem x ys)
elem-append x [] ys = refl
elem-append x (y ∷ xs) ys = ground (arith, elem-append x xs ys)

pub count-get_or :
    (x : ℕ) (xs : List ℕ) (i : ℕ) → i < length xs → get_or xs i 0 ≡ x → 0 < count x xs
count-get_or x [] i h e = absurd (omega arith)
count-get_or x (y ∷ ys) zero h e = ground arith
count-get_or x (y ∷ ys) (suc i) h e = ground (arith, count-get_or x ys i (omega arith) e)
