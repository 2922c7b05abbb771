-- ===== src/Socket/Setup.antt =====
-- server/socket.c: the flag that makes a socket non-blocking, `dime_socket_init_tls` and
-- `dime_socket_destroy`. What the system and OpenSSL return is an argument.
pub mod Flushed
use dime.Base.{
  ℕ, ◌+◌, ◌-◌, ◌/◌, ◌%◌, ◌^◌, Bool, true, false, not, Option, none, some, List, [], ◌∷◌, ◌++◌, ltb,
  ◌==◌, if◌then◌else◌,
}
use dime.Socket.State.{Socket, is_negative}
use dime.Socket.Partial.{sendpartial}

-- `O_NONBLOCK`, one bit of the flags
abbrev pub o_nonblock : ℕ
o_nonblock = 2048

pub has_flag : ℕ → Bool
has_flag flags = flags / o_nonblock % 2 == 1

-- `flags |= O_NONBLOCK` and `flags &= ~O_NONBLOCK`
pub with_flag : ℕ → ℕ
unfolding has_flag
with_flag flags = if has_flag flags then flags else flags + o_nonblock

pub without_flag : ℕ → ℕ
unfolding has_flag
without_flag flags = if has_flag flags then flags - o_nonblock else flags

-- `dime_socket_setnonblocking` on a socket with these flags, where `F_GETFL` and `F_SETFL` succeed or
-- not: whether it returns 0, and the flags.
pub setnonblocking : Bool → Bool → Bool → ℕ → Bool × ℕ
unfolding with_flag without_flag
setnonblocking got set nonblocking flags =
    if not got
    then (false, flags)
    else if set
    then (true, if nonblocking then with_flag flags else without_flag flags)
    else (false, flags)

-- The loop that sends what is waiting: it ends, or fails, or goes on beyond the calls that are given,
-- each with whether memory is granted and what the transport takes.
pub data Flush : Type 0 where
  flushed : Socket → Flush
  unsent : Socket → Flush
  still_sending : Socket → Flush

pub flush : List (Bool × (List ℕ → Option ℕ)) → Socket → Flush
flush [] sock = if ltb 0 sock.wbuf.len then still_sending sock else flushed sock
flush ((granted, transport) ∷ calls) sock =
    let (n, sock') = sendpartial granted transport sock in
    let rest = flush calls sock' in
    if ltb 0 sock.wbuf.len then (if is_negative n then unsent sock' else rest) else flushed sock

-- What the calls of `dime_socket_init_tls` return: whether the socket could be made blocking, what the
-- sends do, whether `SSL_new`, `SSL_set_fd` and `SSL_accept` succeed, and whether the socket could be
-- made non-blocking again.
pub record TlsCalls : Type 0 where
  pub blocking : Bool
  pub sends : List (Bool × (List ℕ → Option ℕ))
  pub context : Bool
  pub fd_set : Bool
  pub accepted : Bool
  pub nonblocking : Bool

-- How it ends: with 0 or -1, or at its assertion, or not yet.
pub data TlsEnd : Type 0 where
  tls_ended : Bool → Socket → TlsEnd
  tls_asserted tls_sending : TlsEnd

-- Behind the loop. Where the socket cannot be made non-blocking again the result is 0, without TLS.
pub shake_hands : TlsCalls → Flush → TlsEnd
shake_hands calls (still_sending sock) = tls_sending
shake_hands calls (unsent sock) = tls_ended false sock
shake_hands calls (flushed sock) =
    if not calls.context
    then tls_ended false sock
    else if not calls.fd_set
    then tls_ended false sock
    else if not calls.accepted
    then tls_ended false sock
    else if not calls.nonblocking
    then tls_ended true sock
    else tls_ended true (record sock { tls_enabled = true })

-- `dime_socket_init_tls`. Where the socket cannot be made blocking the result is 0, too.
pub init_tls : TlsCalls → Socket → TlsEnd
unfolding shake_hands
init_tls calls sock =
    if not calls.blocking
    then tls_ended true sock
    else if ltb 0 sock.rbuf.len
    then tls_asserted
    else shake_hands calls (flush calls.sends sock)

-- What `dime_socket_destroy` releases, in its order.
pub data Release : Type 0 where
  free_rbuf free_wbuf ssl_shutdown ssl_free free_ws_rbuf free_zlib_rbuf deflate_end : Release
  shutdown_fd close_fd : Release

pub socket_destroy : Socket → List Release
socket_destroy sock =
    (free_rbuf ∷ free_wbuf ∷ [])
    ++ ((if sock.tls_enabled then ssl_shutdown ∷ ssl_free ∷ [] else [])
        ++ ((if sock.ws_enabled then free_ws_rbuf ∷ [] else [])
            ++ ((if sock.zlib_enabled then free_zlib_rbuf ∷ deflate_end ∷ [] else [])
                ++ (shutdown_fd ∷ close_fd ∷ []))))
