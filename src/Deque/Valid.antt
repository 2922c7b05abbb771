-- ===== src/Deque/Valid.antt =====
-- The representation invariant of `dime_deque_t`, and the entries that a deque holds.
use dime.Base.{
  ◌+◌, ◌≤◌, ◌<◌, ◌^◌, ◌≡◌, Bool, some, List, [], arith, length, length-tabulate, length-replicate,
}
use dime.Circle.{wrap, window}
use dime.Deque.{Deque, init}

-- A full deque has `begin` and `stop` at one index, as an empty one has.
pub record IsValid {A : Type 0} (d : Deque A) : Type 0 where
  pub storage : length d.arr ≡ d.cap
  pub begin_in : d.begin < d.cap
  pub stop_at : d.stop ≡ wrap d.cap (d.begin + d.len)
  pub within : d.len ≤ d.cap
  pub least : 16 ≤ d.cap
  pub small : d.cap ≤ 2 ^ 63

module _ {A : Type 0} (null : A) where
  -- The entries from left to right.
  abbrev pub contents : Deque A → List A
  contents d = window null d.arr d.cap d.begin d.len

  pub length-contents : (d : Deque A) → length (contents d) ≡ d.len
  length-contents d = length-tabulate d.len _

  -- A deque that `dime_deque_init` sets up is valid and empty.
  pub init-IsValid :
      (grants : Bool) (junk : A) {d : Deque A}
      → init null grants junk ≡ some d
      → IsValid d × (contents d ≡ [])
  unfolding init
  init-IsValid grants junk {d} h = ground (arith, length-replicate 16 junk)

  pub cap-init :
      (grants : Bool) (junk : A) {d : Deque A} → init null grants junk ≡ some d → d.cap ≤ 16
  unfolding init
  cap-init grants junk {d} h = ground arith
