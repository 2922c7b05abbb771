-- ===== src/Socket/Setup/Flushed.antt =====
-- The sending of what is waiting, before a TLS handshake.
use dime.Base.{
  ℕ, zero, suc, ◌≤◌, ◌<◌, ◌≡◌, refl, ap, ◌∙◌, Bool, true, false, Option, some, List, [], ◌∷◌, arith,
  length, take, drop, ltb, min, replicate, dec_lt, length-take, length-drop,
}
use dime.Ring.{Ring}
use dime.Ring.Valid.{IsValid, contents, length-contents}
use dime.Socket.State.{Socket, is_negative}
use dime.Socket.Partial.{sendpartial, sendbuflen}
use dime.Socket.Transfer.{sendpartial_lem}
use dime.Socket.Setup.{Flush, flushed, flush}

-- A transport that takes one byte or more of those that it is offered.
abbrev pub Takes : (List ℕ → Option ℕ) → Type 0
Takes transport =
    (bytes : List ℕ)
    → 0 < length bytes
    → (n : ℕ) × (transport bytes ≡ some n) × (0 < n) × (n ≤ length bytes)

-- A socket with nothing left to send, and otherwise the same.
abbrev pub Emptied : Socket → Flush → Type 0
Emptied sock out =
    (w : Ring) × (out ≡ flushed (record sock { wbuf = w })) × IsValid w × (contents w ≡ [])

empty : (xs : List ℕ) → length xs ≡ 0 → xs ≡ []
empty [] h = refl
empty (x ∷ xs) h = absurd (omega (arith, h))

nothing_waits :
    (calls : List (Bool × (List ℕ → Option ℕ))) (sock : Socket)
    → IsValid sock.wbuf
    → sock.wbuf.len ≡ 0
    → Emptied sock (flush calls sock)
unfolding flush
nothing_waits [] sock v none_left =
    (sock.wbuf, ground arith, v, empty (contents sock.wbuf) (length-contents sock.wbuf ∙ none_left))
nothing_waits (call ∷ calls) sock v none_left =
    (sock.wbuf, ground arith, v, empty (contents sock.wbuf) (length-contents sock.wbuf ∙ none_left))

one_sent :
    (transport : List ℕ → Option ℕ) (calls : List (Bool × (List ℕ → Option ℕ))) (sock : Socket)
    (n : ℕ) (w : Ring)
    → sendpartial true transport sock ≡ (n, record sock { wbuf = w })
    → 0 < sock.wbuf.len
    → n ≤ sendbuflen
    → flush ((true, transport) ∷ calls) sock ≡ flush calls (record sock { wbuf = w })
unfolding flush
one_sent transport calls sock n w sent some_left fits =
    let counted : is_negative n ≡ false = ground arith in
    let more : ltb 0 sock.wbuf.len ≡ true = ground arith in simp (more, sent, counted) refl

shorter :
    (k n : ℕ) (before w : Ring)
    → contents w ≡ drop n (contents before)
    → 0 < n
    → n ≤ before.len
    → before.len ≤ suc k
    → w.len ≤ k
shorter k n before w rest positive fits few = omega (
  arith,
  ap length rest,
  length-contents w,
  length-contents before,
  length-drop n (contents before),
)

offered_size :
    (sock : Socket)
    → length (take (min sendbuflen sock.wbuf.len) (contents sock.wbuf))
      ≡ min sendbuflen sock.wbuf.len
offered_size sock =
    length-take (min sendbuflen sock.wbuf.len) (contents sock.wbuf)
      (omega (arith, length-contents sock.wbuf))

module _ (transport : List ℕ → Option ℕ) (takes : Takes transport) where
  after_one :
      (k n : ℕ) (sock : Socket)
      → IsValid sock.wbuf
      → sock.wbuf.len ≤ suc k
      → 0 < sock.wbuf.len
      → transport (take (min sendbuflen sock.wbuf.len) (contents sock.wbuf)) ≡ some n
      → 0 < n
      → n ≤ min sendbuflen sock.wbuf.len
      → ((w : Ring)
          → IsValid w
          → w.len ≤ k
          → Emptied
              (record sock { wbuf = w })
              (flush (replicate k (true, transport)) (record sock { wbuf = w })))
      → Emptied sock (flush (replicate (suc k) (true, transport)) sock)
  after_one k n sock v few some_left taken positive fits rest_of =
      let (w, sent, valid, rest) = sendpartial_lem transport sock n v taken fits in
      let short : w.len ≤ k = shorter k n sock.wbuf w rest positive (omega (arith, fits)) few in
      let (w', out, valid', is_empty) = rest_of w valid short in
      (
        w',
        one_sent transport (replicate k (true, transport)) sock n w sent some_left
              (omega (arith, fits))
            ∙ out,
        valid',
        is_empty,
      )

  -- The loop that empties the outgoing ring before a TLS handshake ends, within as many calls as there
  -- are bytes, and leaves nothing to send and the rest of the socket as it was, where memory is granted
  -- and the transport takes one byte or more of those that it is offered. The ring is valid.
  pub flush_lem :
      (k : ℕ) (sock : Socket)
      → IsValid sock.wbuf
      → sock.wbuf.len ≤ k
      → Emptied sock (flush (replicate k (true, transport)) sock)
  flush_lem zero sock v few = nothing_waits [] sock v (omega arith)
  flush_lem (suc k) sock v few = elim (dec_lt 0 sock.wbuf.len) [
    | no nothing ↦ nothing_waits (replicate (suc k) (true, transport)) sock v (omega arith)
    | yes some_left ↦
        let size = offered_size sock in
        let (n, taken, positive, fits) =
          takes (take (min sendbuflen sock.wbuf.len) (contents sock.wbuf)) (omega (arith, size)) in
        after_one k n sock v few some_left taken positive (omega (arith, fits, size))
          (λ w valid short. flush_lem k (record sock { wbuf = w }) valid short)
  ]
