-- ===== src/Deque/Iterate.antt =====
-- The two ways to visit a deque, `dime_deque_iter_next` and `dime_deque_apply`. Both take equal
-- indices for the end, so both pass over a full deque.
use Prim.Native.Nat.add
use native.Mathlib.Nat.{add-zero}
use dime.Base.{
  ℕ, zero, suc, ◌+◌, ◌<◌, ◌≡◌, ap, ap₂, sym, ◌∙◌, Bool, true, some, List, [], ◌∷◌, arith, tabulate,
  tabulate_ext, ◌==◌, if◌then◌else◌, add_size,
}
use dime.Circle.{cell, wrap}
use dime.Deque.{Deque, Iter, iter_init, iter_next, walk, apply_from, apply}
use dime.Deque.Valid.{IsValid, contents}

-- The index that one step forward from `i` leads to.
abbrev after : ℕ → ℕ → ℕ
after cap i = if add_size i 1 == cap then 0 else add_size i 1

module _ {A : Type 0} (null : A) (d : Deque A) (v : IsValid d) where
  -- The entries from the `k`-th on, `n` of them.
  abbrev rest_of : ℕ → ℕ → List A
  rest_of k n = tabulate n (λ i. cell null d.arr d.cap d.begin (k + i))

  rest_of-suc : (k n : ℕ) → rest_of k (suc n) ≡ cell null d.arr d.cap d.begin k ∷ rest_of (k + 1) n
  rest_of-suc k n =
      ap₂ ◌∷◌ (ap (cell null d.arr d.cap d.begin) (add-zero k))
        (tabulate_ext n _ _ (λ i l. ap (cell null d.arr d.cap d.begin) (shift i)))
    where
      shift : (i : ℕ) → k + suc i ≡ k + 1 + i
      shift i = omega arith

  iter_next-within :
      (k : ℕ) (it : Iter A)
      → d.len < d.cap
      → k < d.len
      → after d.cap it.i ≡ wrap d.cap (d.begin + k)
      → iter_next null d it
        ≡ (true, record { i = wrap d.cap (d.begin + k); val = cell null d.arr d.cap d.begin k })
  unfolding iter_next
  iter_next-within k it h l p = ground arith

  next_index :
      (k : ℕ)
      → d.len < d.cap
      → k < d.len
      → after d.cap (wrap d.cap (d.begin + k)) ≡ wrap d.cap (d.begin + (k + 1))
  next_index k h l = ground arith

  walk-rest :
      (n k fuel : ℕ) (it : Iter A)
      → d.len < d.cap
      → k + n ≡ d.len
      → n < fuel
      → after d.cap it.i ≡ wrap d.cap (d.begin + k)
      → walk null fuel d it ≡ some (rest_of k n)
  unfolding walk iter_next
  walk-rest n k zero it h e f p = absurd (omega arith)
  walk-rest zero k (suc fuel) it h e f p = ground arith
  walk-rest (suc n) k (suc fuel) it h e f p =
      let it' : Iter A = record {
        i = wrap d.cap (d.begin + k);
        val = cell null d.arr d.cap d.begin k;
      } in
      let step = iter_next-within k it h (omega arith) p in
      let ih =
        walk-rest n (k + 1) fuel it' h (omega arith) (omega arith) (next_index k h (omega arith)) in
      ground (arith, step, ih) ∙ ap some (sym (rest_of-suc k n))

  -- On a valid deque that is not full, a loop over `dime_deque_iter_next` ends, and its body sees
  -- the entries from left to right.
  pub walk_lem :
      (fuel : ℕ)
      → d.len < d.cap
      → d.len < fuel
      → walk null fuel d (iter_init null d) ≡ some (contents null d)
  unfolding iter_init
  walk_lem fuel h f =
      walk-rest d.len 0 fuel (iter_init null d) h (omega arith) f (ground arith)
      ∙ ap some (tabulate_ext d.len _ _ (λ i l. ap (cell null d.arr d.cap d.begin) (add.zero i)))

  -- On a full deque the body sees nothing: the first step already meets the end.
  pub walk_full : (fuel : ℕ) → d.len ≡ d.cap → walk null (suc fuel) d (iter_init null d) ≡ some []
  unfolding walk iter_next iter_init
  walk_full fuel h = ground arith

  -- A callback over the entries of a list, until it returns 0.
  abbrev pub apply_list : {S : Type 0} → (A → S → Bool × S) → List A → S → S
  apply_list f [] p = p
  apply_list f (x ∷ xs) p =
      let rest = apply_list f xs (f x p).1 in if (f x p).0 then rest else (f x p).1

  apply-step :
      {S : Type 0} (f : A → S → Bool × S) (n k fuel i : ℕ) (p : S)
      → d.len < d.cap
      → k < d.len
      → i ≡ wrap d.cap (d.begin + k)
      → let p' = (f (cell null d.arr d.cap d.begin k) p).1 in
        apply_from null fuel d f (after d.cap i) p' ≡ some (apply_list f (rest_of (k + 1) n) p')
        → apply_from null (suc fuel) d f i p
          ≡ some (apply_list f (cell null d.arr d.cap d.begin k ∷ rest_of (k + 1) n) p)
  unfolding apply_from
  apply-step f n k fuel i p h l q ih = ground arith

  apply-rest :
      {S : Type 0} (f : A → S → Bool × S) (n k fuel i : ℕ) (p : S)
      → d.len < d.cap
      → k + n ≡ d.len
      → n < fuel
      → i ≡ wrap d.cap (d.begin + k)
      → apply_from null fuel d f i p ≡ some (apply_list f (rest_of k n) p)
  unfolding apply_from
  apply-rest f n k zero i p h e l q = absurd (omega arith)
  apply-rest f zero k (suc fuel) i p h e l q = ground arith
  apply-rest f (suc n) k (suc fuel) i p h e l q =
      let x = cell null d.arr d.cap d.begin k in
      let ih =
        apply-rest f n (k + 1) fuel (after d.cap i) (f x p).1 h (omega arith) (omega arith)
          (ap (after d.cap) q ∙ next_index k h (omega arith)) in
      apply-step f n k fuel i p h (omega arith) q ih
      ∙ ap (λ xs. some (apply_list f xs p)) (sym (rest_of-suc k n))

  -- On a valid deque that is not full, `dime_deque_apply` ends, and calls its callback on the
  -- entries from left to right until the callback returns 0.
  pub apply_lem :
      {S : Type 0} (fuel : ℕ) (f : A → S → Bool × S) (p : S)
      → d.len < d.cap
      → d.len < fuel
      → apply null fuel d f p ≡ some (apply_list f (contents null d) p)
  unfolding apply
  apply_lem fuel f p h l =
      apply-rest f d.len 0 fuel d.begin p h (omega arith) l (ground arith)
      ∙ ap (λ xs. some (apply_list f xs p))
          (tabulate_ext d.len _ _ (λ i l. ap (cell null d.arr d.cap d.begin) (add.zero i)))
