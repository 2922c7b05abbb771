-- ===== src/Ring/Valid.antt =====
-- The representation invariant of `dime_ringbuffer_t`, and the bytes that a ring holds.
use dime.Base.{
  ℕ, ◌+◌, ◌≤◌, ◌<◌, ◌^◌, ◌≡◌, refl, replicate, Bool, true, some, List, [], arith, length,
  length-tabulate, length-replicate,
}
use dime.Circle.{wrap, window}
use dime.Ring.{Ring, init}

-- `len` stays below `cap`, so `begin` and `stop` meet only when the ring is empty.
pub record IsValid (r : Ring) : Type 0 where
  pub storage : length r.arr ≡ r.cap
  pub begin_in : r.begin < r.cap
  pub stop_at : r.stop ≡ wrap r.cap (r.begin + r.len)
  pub room : r.len < r.cap
  pub least : 1024 ≤ r.cap
  pub small : r.cap ≤ 2 ^ 63

-- The bytes of a ring, the oldest first.
abbrev pub contents : Ring → List ℕ
contents r = window 0 r.arr r.cap r.begin r.len

pub length-contents : (r : Ring) → length (contents r) ≡ r.len
length-contents r = length-tabulate r.len _

-- A ring that `dime_ringbuffer_init` sets up is valid and empty.
pub init-IsValid :
    (grants : Bool) (junk : ℕ) {r : Ring}
    → init grants junk ≡ some r
    → IsValid r × (contents r ≡ [])
unfolding init
init-IsValid grants junk {r} h = ground (arith, length-replicate 1024 junk)

pub init_granted : (junk : ℕ) → (r : Ring) × (init true junk ≡ some r)
unfolding init
init_granted junk =
    (record { arr = replicate 1024 junk; cap = 1024; len = 0; begin = 0; stop = 0 }, refl)
