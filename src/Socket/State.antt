-- ===== src/Socket/State.antt =====
-- server/socket.c: the state of a socket, which holds two rings of bytes, or more, and its setup. The
-- texts of `sock->err` are left out.
use dime.Base.{ℕ, ◌^◌, Bool, false, ◌||◌, Option, none, some, [], ltb, leb}
use dime.Ring.{Ring}
use dime.Ring

-- `dime_socket_t`; `ws_rbuf` is there once `ws_enabled`.
pub record Socket : Type 0 where
  pub fd : ℕ
  pub rbuf : Ring
  pub wbuf : Ring
  pub tls_enabled : Bool
  pub ws_enabled : Bool
  pub zlib_enabled : Bool
  pub ws_rbuf : Ring
  pub zlib_rbuf : Ring

-- `ret < n` where `ret` is an `ssize_t`: signed if `n` is an `int`, unsigned if `n` is a `size_t`.
abbrev pub is_negative : ℕ → Bool
is_negative ret = leb (2 ^ 63) ret

abbrev pub lt_int : ℕ → ℕ → Bool
lt_int ret n = is_negative ret || ltb ret n

-- `dime_socket_init`; `none` is its -1. The rings that are set up later hold nothing yet.
pub init : (ℕ → Bool) → ℕ → ℕ → Option Socket
init grants junk fd = elim (Ring.init (grants 0) junk) [
  | none ↦ none
  | some rbuf ↦ elim (Ring.init (grants 1) junk) [
    | none ↦ none
    | some wbuf ↦ some (record {
      fd = fd;
      rbuf = rbuf;
      wbuf = wbuf;
      tls_enabled = false;
      ws_enabled = false;
      zlib_enabled = false;
      ws_rbuf = unset;
      zlib_rbuf = unset;
    })
  ]
]
  where
    unset : Ring
    unset = record { arr = []; cap = 0; len = 0; begin = 0; stop = 0 }

-- `dime_socket_sendlen` and `dime_socket_recvlen`
pub sendlen : Socket → ℕ
sendlen sock = sock.wbuf.len

pub recvlen : Socket → ℕ
recvlen sock = sock.rbuf.len
