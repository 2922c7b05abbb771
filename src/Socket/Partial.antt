-- ===== src/Socket/Partial.antt =====
-- server/socket.c: `dime_socket_sendpartial` and `dime_socket_recvpartial`. `send`, `recv` and OpenSSL
-- are parameters.
use dime.Base.{ℕ, Bool, Option, none, some, List, if◌then◌else◌, length, size_max}
use dime.Ring.{Ring}
use dime.Ring
use dime.Socket.State.{Socket, is_negative}

-- `dime_socket_sendpartial`: `send` or `SSL_write` takes a prefix of what is waiting, and `none` is
-- its negative result. `SENDBUFLEN` bounds what one call offers.
abbrev pub sendbuflen : ℕ
sendbuflen = 200000000

unfoldable pub sendpartial : Bool → (List ℕ → Option ℕ) → Socket → ℕ × Socket
sendpartial grants transport sock =
    let (nread, buf) = Ring.peek sock.wbuf sendbuflen in
    if grants
    then (elim (transport buf) [
      | none ↦ (size_max, sock)
      | some nsent ↦
          let (_, wbuf') = Ring.discard sock.wbuf nsent in (nsent, record sock { wbuf = wbuf' })
    ])
    else (size_max, sock)

-- `dime_socket_recvpartial`: `received` is what `recv` or `SSL_read` gives, `none` its negative
-- result. Allocation 0 is `buf`, allocation 1 the write.
unfoldable pub recvpartial : (ℕ → Bool) → ℕ → Option (List ℕ) → Socket → ℕ × Socket
recvpartial grants junk received sock =
    if grants 0
    then (elim received [ none ↦ (size_max, sock) | some buf ↦ fill buf ])
    else (size_max, sock)
  where
    target : Ring
    target =
        if sock.ws_enabled
        then sock.ws_rbuf
        else if sock.zlib_enabled
        then sock.zlib_rbuf
        else sock.rbuf

    keep : Ring → Socket
    keep ring =
        if sock.ws_enabled
        then record sock { ws_rbuf = ring }
        else if sock.zlib_enabled
        then record sock { zlib_rbuf = ring }
        else record sock { rbuf = ring }

    fill : List ℕ → ℕ × Socket
    fill buf =
        let (n, ring) = Ring.write (grants 1) junk target buf in
        if is_negative n then (size_max, keep ring) else (length buf, keep ring)
