-- ===== src/Base/Arrays.antt =====
-- C arrays as lists: `memcpy` into an array, a block of it, and `realloc`.
use Prim.Native.Nat.{ℕ, zero, suc, ◌+◌, ◌-◌, ◌≤◌, ◌<◌}
use mathlib.Core.Path.{◌≡◌, refl, ap, ◌∙◌}
use mathlib.Core.List.{List, [], ◌∷◌, ◌++◌}
use native.Mathlib.Omega.{arith}
use dime.Base.Tests.{ltb, if◌then◌else◌}
use dime.Base.Lists.{length, get_or, take, drop, replicate, length-append, length-replicate}

module _ {ℓ} {A : Type ℓ} where
  -- `memcpy(arr + off, src, length src)`; what would fall outside the array is dropped.
  abbrev pub blit : List A → ℕ → List A → List A
  blit [] off src = []
  blit (x ∷ xs) off [] = x ∷ xs
  blit (x ∷ xs) zero (b ∷ src) = b ∷ blit xs zero src
  blit (x ∷ xs) (suc off) (b ∷ src) = x ∷ blit xs off (b ∷ src)

  -- the `n` entries from `arr + off`
  abbrev pub slice : List A → ℕ → ℕ → List A
  slice arr off n = take n (drop off arr)

  -- `realloc` that succeeds: new cells hold anything
  abbrev pub realloc : A → List A → ℕ → List A
  realloc junk arr n = take n arr ++ replicate (n - length arr) junk

  pub length-blit : (arr : List A) (off : ℕ) (src : List A) → length (blit arr off src) ≡ length arr
  length-blit [] off src = refl
  length-blit (x ∷ xs) off [] = refl
  length-blit (x ∷ xs) zero (b ∷ src) = ap suc (length-blit xs zero src)
  length-blit (x ∷ xs) (suc off) (b ∷ src) = ap suc (length-blit xs off (b ∷ src))

  pub length-take : (n : ℕ) (xs : List A) → n ≤ length xs → length (take n xs) ≡ n
  length-take zero xs h = refl
  length-take (suc n) [] h = absurd (omega arith)
  length-take (suc n) (x ∷ xs) h = ap suc (length-take n xs (omega arith))

  pub length-take_le :
      (n : ℕ) (xs : List A) → (length (take n xs) ≤ n) × (length (take n xs) ≤ length xs)
  length-take_le zero xs = (omega arith, omega arith)
  length-take_le (suc n) [] = (omega arith, omega arith)
  length-take_le (suc n) (x ∷ xs) =
      (omega (arith, length-take_le n xs), omega (arith, length-take_le n xs))

  pub length-drop : (n : ℕ) (xs : List A) → length (drop n xs) ≡ length xs - n
  length-drop zero xs = omega arith
  length-drop (suc n) [] = omega arith
  length-drop (suc n) (x ∷ xs) = omega (arith, length-drop n xs)

  pub get_or-take :
      (n : ℕ) (xs : List A) (i : ℕ) (d : A) → i < n → get_or (take n xs) i d ≡ get_or xs i d
  get_or-take zero xs i d h = absurd (omega arith)
  get_or-take (suc n) [] i d h = refl
  get_or-take (suc n) (x ∷ xs) zero d h = refl
  get_or-take (suc n) (x ∷ xs) (suc i) d h = get_or-take n xs i d (omega arith)

  pub get_or-drop :
      (n : ℕ) (xs : List A) (i : ℕ) (d : A) → get_or (drop n xs) i d ≡ get_or xs (n + i) d
  get_or-drop zero xs i d = ap (λ k. get_or xs k d) (omega arith)
  get_or-drop (suc n) [] i d = refl
  get_or-drop (suc n) (x ∷ xs) i d =
      get_or-drop n xs i d ∙ ap (λ k. get_or (x ∷ xs) k d) (shift n i)
    where
      shift : (n i : ℕ) → suc (n + i) ≡ suc n + i
      shift n i = omega arith

  pub length-slice :
      (arr : List A) (off n : ℕ) → off + n ≤ length arr → length (slice arr off n) ≡ n
  length-slice arr off n h = length-take n (drop off arr) (omega (arith, length-drop off arr))

  pub get_or-slice :
      (arr : List A) (off n i : ℕ) (d : A)
      → i < n
      → get_or (slice arr off n) i d ≡ get_or arr (off + i) d
  get_or-slice arr off n i d h = get_or-take n (drop off arr) i d h ∙ get_or-drop off arr i d

  pub get_or-append :
      (xs ys : List A) (i : ℕ) (d : A) → i < length xs → get_or (xs ++ ys) i d ≡ get_or xs i d
  get_or-append [] ys i d h = absurd (omega arith)
  get_or-append (x ∷ xs) ys zero d h = refl
  get_or-append (x ∷ xs) ys (suc i) d h = get_or-append xs ys i d (omega arith)

  pub length-realloc :
      (junk : A) (arr : List A) (n : ℕ) → length arr ≤ n → length (realloc junk arr n) ≡ n
  length-realloc junk arr n h = omega (
    arith,
    length-append {ℓ} (take n arr) (replicate (n - length arr) junk),
    length-replicate {ℓ} (n - length arr) junk,
    take_le n arr h,
  )
    where
      take_le : (n : ℕ) (xs : List A) → length xs ≤ n → length (take n xs) ≡ length xs
      take_le zero [] h = refl
      take_le zero (x ∷ xs) h = absurd (omega arith)
      take_le (suc n) [] h = refl
      take_le (suc n) (x ∷ xs) h = ap suc (take_le n xs (omega arith))

  pub get_or-realloc :
      (junk : A) (arr : List A) (n i : ℕ) (d : A)
      → length arr ≤ n
      → i < length arr
      → get_or (realloc junk arr n) i d ≡ get_or arr i d
  get_or-realloc junk [] n i d h l = absurd (omega arith)
  get_or-realloc junk (x ∷ xs) zero i d h l = absurd (omega arith)
  get_or-realloc junk (x ∷ xs) (suc n) zero d h l = refl
  get_or-realloc junk (x ∷ xs) (suc n) (suc i) d h l =
      ap (λ k. get_or (take n xs ++ replicate k junk) i d) (less n (length xs))
      ∙ get_or-realloc junk xs n i d (omega arith) (omega arith)
    where
      less : (n m : ℕ) → suc n - suc m ≡ n - m
      less n m = omega arith

module _ {A : Type 0} where
  pub get_or-blit :
      (arr : List A) (off : ℕ) (src : List A) (j : ℕ) (d : A)
      → off + length src ≤ length arr
      → get_or (blit arr off src) j d ≡ (
          if ltb j off
          then get_or arr j d
          else if ltb j (off + length src)
          then get_or src (j - off) d
          else get_or arr j d)
  get_or-blit [] off [] j d h = ground arith
  get_or-blit [] off (b ∷ src) j d h = absurd (omega arith)
  get_or-blit (x ∷ xs) off [] j d h = ground arith
  get_or-blit (x ∷ xs) zero (b ∷ src) zero d h = ground arith
  get_or-blit (x ∷ xs) zero (b ∷ src) (suc j) d h = ground (arith, get_or-blit xs zero src j d)
  get_or-blit (x ∷ xs) (suc off) (b ∷ src) zero d h = ground arith
  get_or-blit (x ∷ xs) (suc off) (b ∷ src) (suc j) d h =
      ground (arith, get_or-blit xs off (b ∷ src) j d)
