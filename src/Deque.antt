-- ===== src/Deque.antt =====
-- server/deque.c: the double-ended queue that holds a client's pending messages. Entries are
-- pointers, of any type `A`; `null` is what a read outside the array gives. A function that updates
-- `*deck` returns the new deque. `grants` says whether `malloc` or `realloc` succeeds in a call.
pub mod Valid
pub mod Push
pub mod Pop
pub mod Iterate
mod Examples
use dime.Base.{
  ℕ, zero, suc, ◌+◌, ◌-◌, ◌*◌, ◌/◌, Bool, true, false, Option, none, some, List, [], ◌∷◌, ltb, leb,
  ◌==◌, if◌then◌else◌, get_or, set, replicate, realloc, add_size, sub_size, mul_size,
}
use dime.Circle.{spread}

-- `dime_deque_t`
pub record Deque (A : Type 0) : Type 0 where
  pub arr : List A
  pub len : ℕ
  pub cap : ℕ
  pub begin : ℕ
  pub stop : ℕ

-- `dime_deque_iter_t`, without its pointer to the deque
pub record Iter (A : Type 0) : Type 0 where
  pub i : ℕ
  pub val : A

module _ {A : Type 0} (null : A) where
  -- `dime_deque_init`; `none` is its -1.
  pub init : Bool → A → Option (Deque A)
  init grants junk =
      if grants
      then some (record { arr = replicate 16 junk; len = 0; cap = 16; begin = 0; stop = 0 })
      else none

  -- The growth with which `dime_deque_pushl` and `dime_deque_pushr` both start.
  pub reserve : Bool → A → Deque A → Option (Deque A)
  reserve grants junk deck =
      if leb deck.cap deck.len
      then (if grants
          then some (
              if leb deck.stop deck.begin
              then record deck {
                arr = spread null junk deck.arr ncap deck.begin nbegin;
                begin = nbegin;
                cap = ncap;
              }
              else record deck { arr = realloc junk deck.arr ncap; cap = ncap })
          else none)
      else some deck
    where
      ncap : ℕ
      ncap = mul_size 3 deck.cap / 2

      nbegin : ℕ
      nbegin = add_size deck.begin (sub_size ncap deck.cap)

  put_left : A → Deque A → Deque A
  put_left p deck =
      let first = (if deck.begin == 0 then deck.cap else deck.begin) - 1 in
      record deck { arr = set deck.arr first p; begin = first; len = add_size deck.len 1 }

  put_right : A → Deque A → Deque A
  put_right p deck =
      let next = add_size deck.stop 1 in
      record deck {
        arr = set deck.arr deck.stop p;
        stop = if next == deck.cap then 0 else next;
        len = add_size deck.len 1;
      }

  -- `dime_deque_pushl`; `none` is its -1, which leaves the deque alone.
  pub pushl : Bool → A → Deque A → A → Option (Deque A)
  unfolding put_left
  pushl grants junk deck p = elim (reserve grants junk deck) [
    | none ↦ none
    | some grown ↦ some (put_left p grown)
  ]

  -- `dime_deque_pushr`
  pub pushr : Bool → A → Deque A → A → Option (Deque A)
  unfolding put_right
  pushr grants junk deck p = elim (reserve grants junk deck) [
    | none ↦ none
    | some grown ↦ some (put_right p grown)
  ]

  -- `dime_deque_popl`; `none` is its NULL.
  pub popl : Deque A → Option A × Deque A
  popl deck = if deck.len == 0 then (none, deck) else (
    some (get_or deck.arr deck.begin null),
    record deck { begin = if next == deck.cap then 0 else next; len = deck.len - 1 },
  )
    where
      next : ℕ
      next = add_size deck.begin 1

  -- `dime_deque_popr`, which resets `begin` where it means `end`: `deck->end--` then wraps.
  pub popr : Deque A → Option A × Deque A
  popr deck = if deck.len == 0 then (none, deck) else (
    some (get_or deck.arr last null),
    record deck {
      begin = if deck.stop == 0 then deck.cap else deck.begin;
      stop = last;
      len = deck.len - 1;
    },
  )
    where
      last : ℕ
      last = sub_size deck.stop 1

  -- `dime_deque_iter_init`
  pub iter_init : Deque A → Iter A
  iter_init deck = record { i = sub_size deck.begin 1; val = null }

  -- `dime_deque_iter_next`
  pub iter_next : Deque A → Iter A → Bool × Iter A
  iter_next deck it =
      if i == deck.stop
      then (false, record it { i = i })
      else (true, record { i = i; val = get_or deck.arr i null })
    where
      next : ℕ
      next = add_size it.i 1

      i : ℕ
      i = if next == deck.cap then 0 else next

  -- `while (dime_deque_iter_next(&it))`: the values that its body sees. `none` is out of fuel.
  pub walk : ℕ → Deque A → Iter A → Option (List A)
  walk zero deck it = none
  walk (suc fuel) deck it =
      let (more, it') = iter_next deck it in
      let rest = walk fuel deck it' in
      if more then (elim rest [ none ↦ none | some vals ↦ some (it'.val ∷ vals) ]) else some []

  -- The loop of `dime_deque_apply`, over a callback that updates what `p` points to.
  pub apply_from {ℓ} : {S : Type ℓ} → ℕ → Deque A → (A → S → Bool × S) → ℕ → S → Option S
  apply_from zero deck f i p = none
  apply_from (suc fuel) deck f i p =
      let (go_on, p') = f (get_or deck.arr i null) p in
      let next = add_size i 1 in
      let rest = apply_from fuel deck f (if next == deck.cap then 0 else next) p' in
      if i == deck.stop then some p else if go_on then rest else some p'

  -- `dime_deque_apply`
  pub apply {ℓ} : {S : Type ℓ} → ℕ → Deque A → (A → S → Bool × S) → S → Option S
  apply fuel deck f p = apply_from fuel deck f deck.begin p
