-- ===== src/Socket/Transfer.antt =====
-- `dime_socket_sendpartial` and `dime_socket_recvpartial` lose no byte and make none up.
use dime.Base.{
  ℕ, ◌+◌, ◌*◌, ◌≤◌, ◌<◌, ◌^◌, ◌≡◌, refl, ap, ◌∙◌, true, false, Option, some, List, ◌++◌, arith,
  length, take, drop, min,
}
use dime.Ring.{Ring}
use dime.Ring
use dime.Ring.Valid.{IsValid, contents}
use dime.Ring.Read.{peek_lem, discard_lem}
use dime.Ring.Write.{write_granted}
use dime.Socket.State.{Socket, is_negative}
use dime.Socket.Partial.{sendbuflen, sendpartial, recvpartial}

-- Where memory is granted and the outgoing ring is valid, `dime_socket_sendpartial` offers the
-- transport the oldest bytes, at most `SENDBUFLEN` of them. If the transport takes the first `n` of
-- them, the call returns `n`, those bytes are gone from the ring, the others stay in their order, and
-- nothing else changes.
pub sendpartial_lem :
    (transport : List ℕ → Option ℕ) (sock : Socket) (n : ℕ)
    → IsValid sock.wbuf
    → transport (take (min sendbuflen sock.wbuf.len) (contents sock.wbuf)) ≡ some n
    → n ≤ min sendbuflen sock.wbuf.len
    → (w : Ring) × (sendpartial true transport sock ≡ (n, record sock { wbuf = w }))
      × IsValid w
      × (contents w ≡ drop n (contents sock.wbuf))
unfolding sendpartial
sendpartial_lem transport sock n v taken l =
    let (counted, valid, rest) = discard_lem sock.wbuf n v in
    let all : (Ring.discard sock.wbuf n).0 ≡ n = counted ∙ ground arith in
    (
      (Ring.discard sock.wbuf n).1,
      rw (peek_lem sock.wbuf sendbuflen v, taken) refl,
      valid,
      rest ∙ ap (λ m. drop m (contents sock.wbuf)) all,
    )

-- Where memory is granted, on a plain connection, what the transport gives stands behind what the
-- valid incoming ring held, the call returns its length, and nothing else changes. The bytes must
-- stay far from the range of `size_t`.
pub recvpartial_lem :
    (junk : ℕ) (sock : Socket) (buf : List ℕ)
    → sock.ws_enabled ≡ false
    → sock.zlib_enabled ≡ false
    → IsValid sock.rbuf
    → 3 * (sock.rbuf.len + length buf) < 2 ^ 64
    → (r : Ring) × (recvpartial (λ i. true) junk (some buf) sock
        ≡ (length buf, record sock { rbuf = r }))
      × IsValid r
      × (contents r ≡ contents sock.rbuf ++ buf)
unfolding recvpartial
recvpartial_lem junk sock buf plain no_zlib v small =
    let (n, valid, appended, longer) = write_granted junk sock.rbuf buf v small in
    let fine : is_negative (Ring.write true junk sock.rbuf buf).0 ≡ false = ground (arith, n) in
    ((Ring.write true junk sock.rbuf buf).1, rw (plain, no_zlib, fine) refl, valid, appended)
