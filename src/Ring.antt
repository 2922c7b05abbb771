-- ===== src/Ring.antt =====
-- server/ringbuffer.c: the byte ring that buffers what a socket has read and has still to write.
-- A function that updates `*ring` returns the new ring. `grants` says whether `malloc` or `realloc`
-- succeeds in a call, and `junk` is what new memory holds. An `ssize_t` is its bit pattern.
pub mod Valid
pub mod Write
pub mod Read
pub mod Refine
mod Examples
use dime.Base.{
  ℕ, ◌+◌, ◌-◌, ◌*◌, ◌/◌, Bool, true, false, Option, none, some, List, [], ◌++◌, ltb, leb, ◌==◌,
  if◌then◌else◌, length, replicate, slice, realloc, add_size, sub_size, mul_size, size_max,
}
use dime.Circle.{put_block, spread}

-- `dime_ringbuffer_t`
pub record Ring : Type 0 where
  pub arr : List ℕ
  pub cap : ℕ
  pub len : ℕ
  pub begin : ℕ
  pub stop : ℕ

-- `dime_ringbuffer_init`; `none` is its -1.
pub init : Bool → ℕ → Option Ring
init grants junk = if grants then some fresh else none
  where
    fresh : Ring
    fresh = record { arr = replicate 1024 junk; cap = 1024; len = 0; begin = 0; stop = 0 }

-- The capacity that a write asks for when it needs `n` bytes in all.
pub grown_cap : ℕ → ℕ
grown_cap n = mul_size 3 n / 2

-- The growth inside `dime_ringbuffer_write`, for `siz` more bytes; `none` is its -1.
pub reserve : Bool → ℕ → Ring → ℕ → Option Ring
unfolding grown_cap
reserve grants junk ring siz =
    if leb ring.cap (add_size ring.len siz)
    then (if grants
        then some (
            if ltb ring.stop ring.begin
            then record ring {
              arr = spread 0 junk ring.arr ncap ring.begin nbegin;
              begin = nbegin;
              cap = ncap;
            }
            else record ring { arr = realloc junk ring.arr ncap; cap = ncap })
        else none)
    else some ring
  where
    ncap : ℕ
    ncap = grown_cap (add_size ring.len siz)

    nbegin : ℕ
    nbegin = add_size ring.begin (sub_size ncap ring.cap)

-- The copy inside `dime_ringbuffer_write`.
pub store : Ring → List ℕ → Ring
store ring buf = record ring {
  arr = put_block 0 ring.arr ring.cap ring.stop buf;
  len = add_size ring.len (length buf);
  stop = if leb ring.cap next then next - ring.cap else next;
}
  where
    next : ℕ
    next = add_size ring.stop (length buf)

-- `dime_ringbuffer_write`
pub write : Bool → ℕ → Ring → List ℕ → ℕ × Ring
write grants junk ring buf =
    if length buf == 0 then (0, ring) else (elim (reserve grants junk ring (length buf)) [
      | none ↦ (size_max, ring)
      | some grown ↦ (length buf, store grown buf)
    ])

-- `dime_ringbuffer_peek`: the count, and the bytes put into `buf`.
pub peek : Ring → ℕ → ℕ × List ℕ
peek ring siz =
    if n == 0
    then (0, [])
    else if ltb spaceleft n
    then (n, slice ring.arr ring.begin spaceleft ++ slice ring.arr 0 (n - spaceleft))
    else (n, slice ring.arr ring.begin n)
  where
    n : ℕ
    n = if ltb ring.len siz then ring.len else siz

    spaceleft : ℕ
    spaceleft = ring.cap - ring.begin

-- `dime_ringbuffer_discard`
pub discard : Ring → ℕ → ℕ × Ring
discard ring siz = (
  n,
  record ring { len = ring.len - n; begin = if leb ring.cap next then next - ring.cap else next },
)
  where
    n : ℕ
    n = if ltb ring.len siz then ring.len else siz

    next : ℕ
    next = add_size ring.begin n

-- `dime_ringbuffer_read`: the count, the bytes and the ring.
pub read : Ring → ℕ → ℕ × List ℕ × Ring
unfolding peek discard
read ring siz = let (n, bytes) = peek ring siz in let (m, rest) = discard ring n in (m, bytes, rest)
