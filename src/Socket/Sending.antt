-- ===== src/Socket/Sending.antt =====
-- server/socket.c: `dime_socket_push_str`, which frames a message, with or without a WebSocket frame
-- around it. `grants` says which of a call's allocations succeed, in their order.
use dime.Base.{
  ℕ, ◌+◌, ◌^◌, Bool, true, false, not, Option, none, some, List, [], ◌∷◌, ◌++◌, ltb, if◌then◌else◌,
  length, add_size, size_max,
}
use dime.Ring.{Ring}
use dime.Ring
use dime.Socket.Bytes.{be16, be32, be64}
use dime.Socket.State.{Socket, lt_int}

-- "DiME"
abbrev pub magic : List ℕ
magic = 68 ∷ 105 ∷ 77 ∷ 69 ∷ []

-- `dime_header_t`, as it goes over the network: `htonl` keeps the low 32 bits.
unfoldable pub header : ℕ → ℕ → List ℕ
header jsondata_len bindata_len = magic ++ (be32 jsondata_len ++ be32 bindata_len)

-- The WebSocket header that `dime_socket_push_str` builds.
unfoldable pub ws_header : ℕ → List ℕ
ws_header payload_len =
    if ltb payload_len 126
    then 0x82 ∷ payload_len ∷ []
    else if ltb payload_len (2 ^ 16)
    then 0x82 ∷ 126 ∷ be16 payload_len
    else 0x82 ∷ 127 ∷ be64 payload_len

-- A write that `dime_socket_push_str` checks against a `size_t`: what the test reads, and the ring.
unfoldable pub write_checked : Bool → ℕ → Ring → List ℕ → Bool × Ring
write_checked grants junk ring buf =
    let (n, ring') = Ring.write grants junk ring buf in (not (ltb n (length buf)), ring')

-- The header, which it checks against the `int` 12.
unfoldable pub write_header : Bool → ℕ → Ring → List ℕ → Bool × Ring
write_header grants junk ring hdr =
    let (n, ring') = Ring.write grants junk ring hdr in (not (lt_int n 12), ring')

-- The three writes joined by `||`.
unfoldable pub write_message : (ℕ → Bool) → ℕ → Ring → List ℕ → List ℕ → Bool × Ring
unfolding write_header write_checked
write_message grants junk ring jsonstr bindata =
    let (ok₁, ring₁) =
      write_header (grants 1) junk ring (header (length jsonstr) (length bindata)) in
    let (ok₂, ring₂) = write_checked (grants 2) junk ring₁ jsonstr in
    let (ok₃, ring₃) = write_checked (grants 3) junk ring₂ bindata in
    if ok₁ then (if ok₂ then (ok₃, ring₃) else (false, ring₂)) else (false, ring₁)

-- `dime_socket_push_str`: its result, and the socket. The assertion that a payload's length is below
-- 2 ^ 63 is left out, since no text and binary part in memory are as long.
unfoldable pub push_str : (ℕ → Bool) → ℕ → Socket → List ℕ → List ℕ → ℕ × Socket
unfolding write_message ws_header write_checked
push_str grants junk sock jsonstr bindata =
    let ws_hdr = if sock.ws_enabled then ws_header payload_len else [] in
    let (ok₀, ring₀) =
      if sock.ws_enabled
      then write_checked (grants 0) junk sock.wbuf ws_hdr
      else (true, sock.wbuf) in
    let (ok, ring) = write_message grants junk ring₀ jsonstr bindata in
    if ok₀
    then (if ok
        then (12 + length ws_hdr + length jsonstr + length bindata, record sock { wbuf = ring })
        else (size_max, record sock { wbuf = ring }))
    else (size_max, record sock { wbuf = ring₀ })
  where
    payload_len : ℕ
    payload_len = add_size (12 + length jsonstr) (length bindata)

-- `dime_socket_push`, over what `json_dumps` makes of the value; `none` is its NULL.
pub push : (ℕ → Bool) → ℕ → Socket → Option (List ℕ) → List ℕ → ℕ × Socket
unfolding push_str
push grants junk sock dumped bindata = elim dumped [
  | none ↦ (size_max, sock)
  | some jsonstr ↦ push_str grants junk sock jsonstr bindata
]
