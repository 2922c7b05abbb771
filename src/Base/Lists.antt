-- ===== src/Base/Lists.antt =====
-- Lists measured and indexed by native numbers, under the library's names.
use Prim.Native.Nat.{ℕ, zero, suc, ◌+◌, ◌-◌, ◌≤◌, ◌<◌}
use Prim.Native.Nat.add
use mathlib.Core.Path.{◌≡◌, refl, sym, ap, ap₂, ◌∙◌}
use mathlib.Core.Logic.{◌≢◌}
use mathlib.Core.List.{List, [], ◌∷◌, ◌++◌}
use native.Mathlib.Omega.{arith}

module _ {ℓ} {A : Type ℓ} where
  abbrev pub length : List A → ℕ
  length [] = 0
  length (x ∷ xs) = suc (length xs)

  abbrev pub get_or : List A → ℕ → A → A
  get_or [] i d = d
  get_or (x ∷ xs) zero d = x
  get_or (x ∷ xs) (suc i) d = get_or xs i d

  -- A write out of bounds changes nothing.
  abbrev pub set : List A → ℕ → A → List A
  set [] i v = []
  set (x ∷ xs) zero v = v ∷ xs
  set (x ∷ xs) (suc i) v = x ∷ set xs i v

  abbrev pub take : ℕ → List A → List A
  take zero xs = []
  take (suc n) [] = []
  take (suc n) (x ∷ xs) = x ∷ take n xs

  abbrev pub drop : ℕ → List A → List A
  drop zero xs = xs
  drop (suc n) [] = []
  drop (suc n) (x ∷ xs) = drop n xs

  abbrev pub replicate : ℕ → A → List A
  replicate zero a = []
  replicate (suc n) a = a ∷ replicate n a

  -- `f 0 ∷ f 1 ∷ ...`, `n` entries
  abbrev pub tabulate : ℕ → (ℕ → A) → List A
  tabulate zero f = []
  tabulate (suc n) f = f 0 ∷ tabulate n (λ i. f (suc i))

  pub length-append : (xs ys : List A) → length (xs ++ ys) ≡ length xs + length ys
  length-append [] ys = omega arith
  length-append (x ∷ xs) ys = omega (arith, length-append xs ys)

  pub length-set : (xs : List A) (i : ℕ) (v : A) → length (set xs i v) ≡ length xs
  length-set [] i v = refl
  length-set (x ∷ xs) zero v = refl
  length-set (x ∷ xs) (suc i) v = ap suc (length-set xs i v)

  pub get_or-set_self :
      (xs : List A) (i : ℕ) (v d : A) → i < length xs → get_or (set xs i v) i d ≡ v
  get_or-set_self [] i v d h = absurd (omega arith)
  get_or-set_self (x ∷ xs) zero v d h = refl
  get_or-set_self (x ∷ xs) (suc i) v d h = get_or-set_self xs i v d (omega arith)

  pub get_or-set_ne :
      (xs : List A) (i j : ℕ) (v d : A) → i ≢ j → get_or (set xs i v) j d ≡ get_or xs j d
  get_or-set_ne [] i j v d h = refl
  get_or-set_ne (x ∷ xs) zero zero v d h = absurd (h refl)
  get_or-set_ne (x ∷ xs) zero (suc j) v d h = refl
  get_or-set_ne (x ∷ xs) (suc i) zero v d h = refl
  get_or-set_ne (x ∷ xs) (suc i) (suc j) v d h = get_or-set_ne xs i j v d (λ e. h (ap suc e))

  pub length-replicate : (n : ℕ) (a : A) → length (replicate n a) ≡ n
  length-replicate zero a = refl
  length-replicate (suc n) a = ap suc (length-replicate n a)

  pub take_all : (n : ℕ) (xs : List A) → length xs ≤ n → take n xs ≡ xs
  take_all zero [] h = refl
  take_all zero (x ∷ xs) h = absurd (omega arith)
  take_all (suc n) [] h = refl
  take_all (suc n) (x ∷ xs) h = ap (◌∷◌ x) (take_all n xs (omega arith))

  pub take-append-drop : (n : ℕ) (xs : List A) → take n xs ++ drop n xs ≡ xs
  take-append-drop zero xs = refl
  take-append-drop (suc n) [] = refl
  take-append-drop (suc n) (x ∷ xs) = ap (◌∷◌ x) (take-append-drop n xs)

  pub take-append : (xs ys : List A) → take (length xs) (xs ++ ys) ≡ xs
  take-append [] ys = refl
  take-append (x ∷ xs) ys = ap (◌∷◌ x) (take-append xs ys)

  pub take-append_le : (n : ℕ) (xs ys : List A) → n ≤ length xs → take n (xs ++ ys) ≡ take n xs
  take-append_le zero xs ys h = refl
  take-append_le (suc n) [] ys h = absurd (omega arith)
  take-append_le (suc n) (x ∷ xs) ys h = ap (◌∷◌ x) (take-append_le n xs ys (omega arith))

  pub drop-append : (xs ys : List A) → drop (length xs) (xs ++ ys) ≡ ys
  drop-append [] ys = refl
  drop-append (x ∷ xs) ys = drop-append xs ys

  pub length-tabulate : (n : ℕ) (f : ℕ → A) → length (tabulate n f) ≡ n
  length-tabulate zero f = refl
  length-tabulate (suc n) f = ap suc (length-tabulate n _)

  pub tabulate_ext :
      (n : ℕ) (f g : ℕ → A) → ((i : ℕ) → i < n → f i ≡ g i) → tabulate n f ≡ tabulate n g
  tabulate_ext zero f g h = refl
  tabulate_ext (suc n) f g h =
      ap₂ ◌∷◌ (h 0 (omega arith)) (tabulate_ext n _ _ (λ i p. h (suc i) (omega arith)))

  pub tabulate-get_or : (xs : List A) (d : A) → tabulate (length xs) (λ i. get_or xs i d) ≡ xs
  tabulate-get_or [] d = refl
  tabulate-get_or (x ∷ xs) d = ap (◌∷◌ x) (tabulate-get_or xs d)

  -- Two tables side by side.
  pub tabulate-append :
      (n m : ℕ) (f g h : ℕ → A)
      → ((i : ℕ) → i < n → f i ≡ h i)
      → ((i : ℕ) → i < m → g i ≡ h (n + i))
      → tabulate n f ++ tabulate m g ≡ tabulate (n + m) h
  tabulate-append zero m f g h p q =
      tabulate_ext m g h (λ i l. q i l ∙ ap h (add.zero i))
      ∙ ap (λ k. tabulate k h) (sym (add.zero m))
  tabulate-append (suc n) m f g h p q =
      ap₂ ◌∷◌ (p 0 (omega arith)) (
        tabulate-append n m _ _ (λ i. h (suc i)) (λ i l. p (suc i) (omega arith))
          (λ i l. q i l ∙ ap h (add.suc n i)))
      ∙ ap (λ k. tabulate k h) (sym (add.suc n m))

  pub take-tabulate : (n m : ℕ) (f : ℕ → A) → n ≤ m → take n (tabulate m f) ≡ tabulate n f
  take-tabulate zero m f h = refl
  take-tabulate (suc n) zero f h = absurd (omega arith)
  take-tabulate (suc n) (suc m) f h = ap (◌∷◌ (f 0)) (take-tabulate n m _ (omega arith))

  pub drop-tabulate :
      (n m : ℕ) (f : ℕ → A) → n ≤ m → drop n (tabulate m f) ≡ tabulate (m - n) (λ i. f (n + i))
  drop-tabulate zero m f h =
      tabulate_ext m f (λ i. f (0 + i)) (λ i l. ap f (sym (add.zero i)))
      ∙ ap (λ k. tabulate k (λ i. f (0 + i))) (less m)
    where
      less : (k : ℕ) → k ≡ k - 0
      less k = omega arith
  drop-tabulate (suc n) zero f h = absurd (omega arith)
  drop-tabulate (suc n) (suc m) f h =
      drop-tabulate n m (λ i. f (suc i)) (omega arith)
      ∙ tabulate_ext (m - n) (λ i. f (suc (n + i))) (λ i. f (suc n + i))
          (λ i l. ap f (sym (add.suc n i)))
      ∙ ap (λ k. tabulate k (λ i. f (suc n + i))) (less m n)
    where
      less : (k n : ℕ) → k - n ≡ suc k - suc n
      less k n = omega arith
