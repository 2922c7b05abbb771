-- ===== src/Ring/Examples.antt =====
-- A ring whose bytes wrap, and what the theorems say of it.
use dime.Base.{◌≡◌, refl, true, List, [], ◌∷◌, ◌++◌, arith, replicate}
use dime.Ring.{Ring, write}
use dime.Ring.Valid.{IsValid, contents}
use dime.Ring.Write.{Wrote, write-Wrote}
use dime.Ring.Refine.{Op, put, get, run, run_stream, run_refines}

-- The bytes 1, 2, 3 and 4, the first two at the array's end.
abbrev wrapped : Ring
wrapped = record {
  arr = 3 ∷ 4 ∷ (replicate 1020 0 ++ (1 ∷ 2 ∷ []));
  cap = 1024;
  len = 4;
  begin = 1022;
  stop = 2;
}

wrapped-IsValid : IsValid wrapped
wrapped-IsValid = record {
  storage = refl;
  begin_in = ground arith;
  stop_at = refl;
  room = ground arith;
  least = ground arith;
  small = ground arith;
}

write-Wrote_example : Wrote true wrapped (5 ∷ 6 ∷ []) (write true 0 wrapped (5 ∷ 6 ∷ []))
write-Wrote_example = write-Wrote true 0 wrapped (5 ∷ 6 ∷ []) wrapped-IsValid (ground arith)

abbrev calls : List Op
calls = put (5 ∷ 6 ∷ []) ∷ get 3 ∷ get 9 ∷ []

run_example : run 0 wrapped calls ≡ run_stream (contents wrapped) calls
run_example = run_refines 0 wrapped calls wrapped-IsValid (ground arith)
