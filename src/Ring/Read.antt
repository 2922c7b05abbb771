-- ===== src/Ring/Read.antt =====
-- `dime_ringbuffer_peek`, `_discard` and `_read` take from the front of a ring.
use dime.Base.{
  ◌≤◌, List, length-append, take-append, drop-append, ap, ℕ, ◌≡◌, ◌++◌, length, take-append-drop,
  length-take, arith, min, take, drop, take-tabulate,
}
use dime.Circle.{cell, window-slice, window-slices, window-advance}
use dime.Ring.{Ring, peek, discard, read}
use dime.Ring.Valid.{IsValid, contents, length-contents}

-- On a valid ring `dime_ringbuffer_peek` copies the oldest bytes, as many as are asked for or held.
pub peek_lem :
    (r : Ring) (siz : ℕ)
    → IsValid r
    → peek r siz ≡ (min siz r.len, take (min siz r.len) (contents r))
unfolding peek
peek_lem r siz v = ground (
  arith,
  take-tabulate (min siz r.len) r.len (cell 0 r.arr r.cap r.begin),
  window-slice 0 r.arr r.cap r.begin (min siz r.len),
  window-slices 0 r.arr r.cap r.begin (min siz r.len),
)

discard_count : (r : Ring) (siz : ℕ) → (discard r siz).0 ≡ min siz r.len
unfolding discard
discard_count r siz = ground arith

-- On a valid ring `dime_ringbuffer_discard` drops the oldest bytes, as many as are asked for or
-- held, returns their number, and keeps the ring valid.
pub discard_lem :
    (r : Ring) (siz : ℕ)
    → IsValid r
    → let (n, r') = discard r siz in
      (n ≡ min siz r.len) × IsValid r' × (contents r' ≡ drop n (contents r))
unfolding discard
discard_lem r siz v = ground (arith, window-advance 0 r.arr r.cap r.begin (min siz r.len) r.len)

-- `dime_ringbuffer_read` splits the bytes of a valid ring: it returns the oldest and leaves the
-- others.
pub read_lem :
    (r : Ring) (siz : ℕ)
    → IsValid r
    → let (n, bytes, r') = read r siz in
      (n ≡ min siz r.len) × (contents r ≡ bytes ++ contents r') × (length bytes ≡ n) × IsValid r'
unfolding read
read_lem r siz v = ground (
  arith,
  peek_lem r siz v,
  discard_lem r (min siz r.len) v,
  take-append-drop (min siz r.len) (contents r),
  length-take (min siz r.len) (contents r),
  length-contents r,
)

module _ (r : Ring) (front rest : List ℕ) (v : IsValid r) (e : contents r ≡ front ++ rest) where
  within : length front ≤ r.len
  within = omega (arith, length-contents r, ap length e, length-append {0} front rest)

  -- What stands at the front of a valid ring is what a peek of its size gives.
  pub peek_front : peek r (length front) ≡ (length front, front)
  peek_front = ground (
    arith,
    peek_lem r (length front) v,
    within,
    ap (take (length front)) e,
    take-append front rest,
  )

  pub discard_front :
      let (n, r') = discard r (length front) in
      (n ≡ length front) × IsValid r' × (contents r' ≡ rest)
  discard_front = ground (
    arith,
    discard_lem r (length front) v,
    within,
    ap (drop (length front)) e,
    drop-append front rest,
  )
