-- ===== src/Deque/Pop.antt =====
-- `dime_deque_popl` and `dime_deque_popr` take one entry from an end. The second does so only while
-- its index is not 0: there it moves `begin` in place of `end`, and reads outside the array.
use dime.Base.{
  ◌≤◌, ◌≡◌, ap, true, none, some, [], ◌∷◌, ◌++◌, inl, inr, ◌⊎◌, ◌≢◌, arith, size_max, sub_size,
  Bool-cases, ◌==◌, get_or, length,
}
use dime.Circle.{window, window-head, window-last}
use dime.Deque.{Deque, popl, popr}
use dime.Deque.Valid.{IsValid, contents}

module _ {A : Type 0} (null : A) where
  -- On a valid deque `dime_deque_popl` takes the leftmost entry, or returns NULL if there is none.
  pub popl_lem :
      (d : Deque A)
      → IsValid d
      → ((contents null d ≡ []) × (popl null d ≡ (none, d)))
        ⊎ ((p : A) × (d' : Deque A) × (popl null d ≡ (some p, d'))
            × IsValid d'
            × (contents null d ≡ p ∷ contents null d'))
  unfolding popl
  popl_lem d v = elim (Bool-cases (d.len == 0)) [
    | inl empty ↦ inl (ap (window null d.arr d.cap d.begin) (is_zero empty), rw (empty, popl))
    | inr more ↦ inr (
      get_or d.arr d.begin null,
      (popl null d).1,
      ground arith,
      ground arith,
      ground (arith, window-head null d.arr d.cap d.begin d.len),
    )
  ]
    where
      is_zero : (d.len == 0) ≡ true → d.len ≡ 0
      is_zero h = ground arith

  pub cap-popl : (d : Deque A) → (popl null d).1.cap ≡ d.cap
  unfolding popl
  cap-popl d = ground arith

  -- On a valid deque whose `end` index is not 0, `dime_deque_popr` takes the rightmost entry.
  pub popr_lem :
      (d : Deque A)
      → IsValid d
      → d.len ≢ 0
      → d.stop ≢ 0
      → (p : A) × (d' : Deque A) × (popr null d ≡ (some p, d'))
        × IsValid d'
        × (contents null d ≡ contents null d' ++ (p ∷ []))
  unfolding popr
  popr_lem d v h n = (
    get_or d.arr (sub_size d.stop 1) null,
    (popr null d).1,
    ground arith,
    ground arith,
    ground (arith, window-last null d.arr d.cap d.begin d.len (sub_size d.stop 1)),
  )

  -- Where the entries of a valid deque end at the array's end, `dime_deque_popr` reads the entry at
  -- index 2 ^ 64 - 1, outside the array, and leaves both indices outside it.
  pub popr_out_of_bounds :
      (d : Deque A)
      → IsValid d
      → d.len ≢ 0
      → d.stop ≡ 0
      → let (p, d') = popr null d in
        (p ≡ some (get_or d.arr size_max null))
        × (length d.arr ≤ size_max)
        × (d'.stop ≡ size_max)
        × (d'.begin ≡ d.cap)
        × ¬ IsValid d'
  unfolding popr
  popr_out_of_bounds d v h e = ground arith
