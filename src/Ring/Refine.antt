-- ===== src/Ring/Refine.antt =====
-- A ring against a plain stream of bytes: no sequence of writes and reads tells them apart.
use dime.Base.{
  ℕ, ◌+◌, ◌*◌, ◌≤◌, ◌<◌, ◌^◌, ◌≡◌, refl, sym, ap, ap₂, ◌∙◌, List, [], ◌∷◌, ◌++◌, arith, length,
  true, min, take, drop, length-append, take-append, drop-append,
}
use dime.Ring.{Ring, write, read}
use dime.Ring.Valid.{IsValid, contents, length-contents}
use dime.Ring.Write.{write_granted}
use dime.Ring.Read.{read_lem}

-- What the socket code asks of its buffers.
pub data Op : Type 0 where
  put : List ℕ → Op
  get : ℕ → Op

-- A count, and the bytes that a read copies out.
abbrev pub Reply : Type 0
Reply = ℕ × List ℕ

-- The calls on a ring, in a system where memory is granted.
pub run : ℕ → Ring → List Op → List Reply
run junk r [] = []
run junk r (put buf ∷ ops) = let (n, r') = write true junk r buf in (n, []) ∷ run junk r' ops
run junk r (get n ∷ ops) = let (m, bytes, r') = read r n in (m, bytes) ∷ run junk r' ops

-- The same calls on a stream of bytes.
pub run_stream : List ℕ → List Op → List Reply
run_stream q [] = []
run_stream q (put buf ∷ ops) = (length buf, []) ∷ run_stream (q ++ buf) ops
run_stream q (get n ∷ ops) = let m = min n (length q) in (m, take m q) ∷ run_stream (drop m q) ops

-- The number of bytes written in all.
abbrev pub written : List Op → ℕ
written [] = 0
written (put buf ∷ ops) = length buf + written ops
written (get n ∷ ops) = written ops

-- A read, as the stream sees it.
split_at :
    (q front rest : List ℕ) (n : ℕ)
    → q ≡ front ++ rest
    → length front ≡ n
    → (front ≡ take n q) × (rest ≡ drop n q)
split_at q front rest n e l =
    rw (e, ← l) (sym (take-append front rest), sym (drop-append front rest))

get_lem :
    (r : Ring) (n : ℕ)
    → IsValid r
    → let (m, bytes, r') = read r n in
      (m ≡ min n (length (contents r)))
      × (bytes ≡ take m (contents r))
      × (contents r' ≡ drop m (contents r))
      × IsValid r'
      × (r'.len ≤ r.len)
get_lem r n v =
    let l = read_lem r n v in
    let (m, bytes, r') = read r n in
    let s = split_at (contents r) bytes (contents r') m l.1 l.2 in
    (
      l.0 ∙ ap (min n) (sym (length-contents r)),
      s.0,
      s.1,
      l.3,
      omega (
        arith,
        ap length l.1,
        length-append {0} bytes (contents r'),
        length-contents r,
        length-contents r',
      ),
    )

-- On a valid ring, while the bytes written stay far from the range of `size_t` and memory is
-- granted, every sequence of writes and reads returns what it returns on a plain stream.
pub run_refines :
    (junk : ℕ) (r : Ring) (ops : List Op)
    → IsValid r
    → 3 * (r.len + written ops) < 2 ^ 64
    → run junk r ops ≡ run_stream (contents r) ops
unfolding run run_stream
run_refines junk r [] v small = refl
run_refines junk r (put buf ∷ ops) v small =
    let p = write_granted junk r buf v (omega arith) in
    ap₂ (λ (a : ℕ) (b : List Reply). (a, []) ∷ b) p.0
      (run_refines junk (write true junk r buf).1 ops p.1 (omega arith)
        ∙ ap (λ q. run_stream q ops) p.2)
run_refines junk r (get n ∷ ops) v small =
    let g = get_lem r n v in
    let (m, bytes, r') = read r n in
    let after = run_refines junk r' ops g.3 (omega arith) ∙ ap (λ q. run_stream q ops) g.2 in
    let same = ap (λ k. (k, take k (contents r)) ∷ run_stream (drop k (contents r)) ops) g.0 in
    ap₂ (λ (a : List ℕ) (b : List Reply). (m, a) ∷ b) g.1 after ∙ same
