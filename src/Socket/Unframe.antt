-- ===== src/Socket/Unframe.antt =====
-- server/socket.c: the part of `dime_socket_pop` that takes WebSocket frames off.
use Prim.Native.Nat.{bit_xor}
use dime.Base.{
  ℕ, zero, suc, ◌+◌, ◌%◌, Bool, not, ◌&&◌, Option, none, some, List, [], ◌∷◌, ltb, leb, ◌==◌,
  if◌then◌else◌, get_or, slice, add_size,
}
use dime.Ring.{Ring}
use dime.Ring
use dime.Socket.Bytes.{from_be}
use dime.Socket.State.{Socket, is_negative}

-- What `dime_socket_pop` reads of a frame's header: the header's length, the frame's, and the mask.
pub record WsHeader : Type 0 where
  pub hdr_len : ℕ
  pub frame_len : ℕ
  pub mask : List ℕ

-- The three forms of the header, in `nread` bytes.
pub ws_parse : ℕ → List ℕ → Option WsHeader
ws_parse nread hdr =
    if ltb kind 126 && leb 6 nread
    then some (record { hdr_len = 6; frame_len = kind; mask = slice hdr 2 4 })
    else if kind == 126 && leb 8 nread
    then some (record { hdr_len = 8; frame_len = from_be (slice hdr 2 2); mask = slice hdr 4 4 })
    else if kind == 127 && nread == 14
    then some (record { hdr_len = 14; frame_len = from_be (slice hdr 2 8); mask = slice hdr 10 4 })
    else none
  where
    kind : ℕ
    kind = get_or hdr 1 0 % 128

-- `frame[i] ^= mask[i & 3]`
pub unmask : List ℕ → ℕ → List ℕ → List ℕ
unmask mask i [] = []
unmask mask i (b ∷ bs) = bit_xor b (get_or mask (i % 4) 0) ∷ unmask mask (i + 1) bs

-- How a pass ends: with what the code goes on to, or with an access outside a buffer.
pub data Unframed : Type 0 where
  again : Socket → Unframed
  done : Socket → Unframed
  error : Socket → Unframed
  fault : Unframed

-- One pass of the loop over WebSocket frames. Allocation 0 is `msg`, allocation 1 the write.
pub unframe_step : (ℕ → Bool) → ℕ → Socket → Unframed
unfolding ws_parse unmask
unframe_step grants junk sock =
    let (nread, hdr) = Ring.peek sock.ws_rbuf 14 in
    elim (ws_parse nread hdr) [
      | none ↦ done sock
      | some h ↦
          let msgsiz = add_size h.hdr_len h.frame_len in
          let (got, msg) = Ring.peek sock.ws_rbuf msgsiz in
          let (n, rbuf') =
            Ring.write (grants 1) junk sock.rbuf
              (unmask h.mask 0 (slice msg h.hdr_len h.frame_len)) in
          let (_, ws_rbuf') = Ring.discard sock.ws_rbuf msgsiz in
          if ltb (get_or hdr 1 0) 128
          then error sock
          else if not (grants 0)
          then error sock
          else if not (got == msgsiz)
          then done sock
          else if ltb msgsiz (h.hdr_len + h.frame_len)
          then fault
          else if is_negative n
          then error (record sock { rbuf = rbuf' })
          else again (record sock { rbuf = rbuf'; ws_rbuf = ws_rbuf' })
    ]

-- The loop over WebSocket frames; `none` is out of fuel. A pass makes two allocations.
pub unframe : ℕ → (ℕ → Bool) → ℕ → Socket → Option Unframed
unframe zero grants junk sock = none
unframe (suc fuel) grants junk sock = elim (unframe_step grants junk sock) [
  | again sock' ↦ unframe fuel (λ i. grants (i + 2)) junk sock'
  | done sock' ↦ some (done sock')
  | error sock' ↦ some (error sock')
  | fault ↦ some fault
]
