-- ===== src/Deque/Examples.antt =====
-- Deques with room, with entries up to the array's end, and full, and what the theorems say of them.
use dime.Base.{
  ℕ, ◌+◌, ◌≤◌, ◌<◌, ◌≡◌, ◌⊎◌, refl, Bool, not, ◌==◌, true, false, none, some, [], ◌∷◌, ◌++◌, arith,
  length, replicate, get_or, size_max,
}
use dime.Deque.{Deque, pushr, popr, iter_init, walk}
use dime.Deque.Valid.{IsValid, contents}
use dime.Deque.Push.{pushr_lem}
use dime.Deque.Pop.{popr_out_of_bounds}
use dime.Deque.Iterate.{walk_lem, walk_full}

-- The entries 7, 8 and 9, of which the last has wrapped.
abbrev three : Deque ℕ
three = record {
  arr = 9 ∷ (replicate 13 0 ++ (7 ∷ 8 ∷ []));
  len = 3;
  cap = 16;
  begin = 14;
  stop = 1;
}

three-IsValid : IsValid three
three-IsValid = record {
  storage = refl;
  begin_in = ground arith;
  stop_at = refl;
  within = ground arith;
  least = ground arith;
  small = ground arith;
}

-- The entries 7 and 8, up to the array's end.
abbrev at_end : Deque ℕ
at_end = record { arr = replicate 14 0 ++ (7 ∷ 8 ∷ []); len = 2; cap = 16; begin = 14; stop = 0 }

at_end-IsValid : IsValid at_end
at_end-IsValid = record {
  storage = refl;
  begin_in = ground arith;
  stop_at = refl;
  within = ground arith;
  least = ground arith;
  small = ground arith;
}

-- Sixteen entries in sixteen cells.
abbrev full : Deque ℕ
full = record { arr = replicate 16 5; len = 16; cap = 16; begin = 3; stop = 3 }

full-IsValid : IsValid full
full-IsValid = record {
  storage = refl;
  begin_in = ground arith;
  stop_at = refl;
  within = ground arith;
  least = ground arith;
  small = ground arith;
}

pushr_example :
    ((d' : Deque ℕ) × (pushr 0 true 0 full 6 ≡ some d')
      × IsValid d'
      × (contents 0 d' ≡ contents 0 full ++ (6 ∷ []))
      × ((true ≡ true) ⊎ (full.len < full.cap)))
    ⊎ ((pushr 0 true 0 full 6 ≡ none) × (true ≡ false) × (full.len ≡ full.cap))
pushr_example = pushr_lem 0 true 0 full 6 full-IsValid (ground arith)

popr_out_of_bounds_example :
    let (p, d') = popr 0 at_end in
    (p ≡ some (get_or at_end.arr size_max 0))
    × (length at_end.arr ≤ size_max)
    × (d'.stop ≡ size_max)
    × (d'.begin ≡ 16)
    × ¬ IsValid d'
popr_out_of_bounds_example = popr_out_of_bounds 0 at_end at_end-IsValid (ground arith) refl

walk_example : walk 0 20 three (iter_init 0 three) ≡ some (contents 0 three)
walk_example = walk_lem 0 three three-IsValid 20 (ground arith) (ground arith)

walk_full_example : walk 0 20 full (iter_init 0 full) ≡ some []
walk_full_example = walk_full 0 full full-IsValid 19 refl

-- A callback that adds up, and stops at 8.
abbrev add_up : ℕ → ℕ → Bool × ℕ
add_up x sum = (not (x == 8), sum + x)
