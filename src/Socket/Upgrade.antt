-- ===== src/Socket/Upgrade.antt =====
-- server/socket.c: `dime_socket_init_ws`, the server's side of a WebSocket handshake. What `recv`,
-- `send` and `fcntl` return is an argument, and SHA-1 with the encoding in base 64 is a parameter.
pub mod Http
pub mod Reading
pub mod Lines
pub mod Closed
pub mod Headers
pub mod Answered
pub mod Examples
use dime.Base.{
  ℕ, zero, suc, ◌+◌, ◌-◌, ◌*◌, ◌/◌, Bool, true, false, not, ◌&&◌, Option, none, some, List, [], ◌∷◌,
  ◌++◌, ltb, leb, ◌==◌, if◌then◌else◌, length, mul_size,
}
use dime.Ring.{Ring}
use dime.Ring
use dime.Socket.State.{Socket}
use dime.Socket.Receiving.{same_bytes}
use Http.{
  Signed, c_string, contains, lines, split_colon, RequestLine, request_line, too_old, print_int,
}

-- How the handshake ends: with 0 or -1, the socket and what was sent; it has not ended while `recv` is
-- to return more; or it reads through a null pointer, writes outside a buffer or fails its assertion.
pub data Upgraded : Type 0 where
  ended : Bool → Socket → List ℕ → Upgraded
  reading_on : Upgraded
  crashed : Upgraded

-- How the loop over `recv` ends.
pub data Received : Type 0 where
  received : List ℕ → Received
  failed more_to_come out_of_bounds : Received

abbrev pub blank_line : List ℕ
blank_line = 13 ∷ 10 ∷ 13 ∷ 10 ∷ []

-- `(http_cap * 3) / 2`
pub grown : ℕ → ℕ
grown cap = mul_size cap 3 / 2

-- The loop, from a buffer of `cap` bytes that holds `hdr`: `recv` gives at most what is asked for. The
-- zero behind the bytes is written inside the buffer.
pub receive : (ℕ → Bool) → ℕ → List ℕ → List (Option (List ℕ)) → Received
receive grants cap hdr [] = more_to_come
receive grants cap hdr (none ∷ later) = failed
receive grants cap hdr (some chunk ∷ later) =
    let hdr' = hdr ++ chunk in
    let is_full = leb cap (length hdr') in
    let cap' = if is_full then grown cap else cap in
    let rest = receive (if is_full then (λ i. grants (i + 1)) else grants) cap' hdr' later in
    if ltb (cap - length hdr) (length chunk)
    then out_of_bounds
    else if is_full && not (grants 0)
    then failed
    else if leb cap' (length hdr')
    then out_of_bounds
    else if contains blank_line (c_string hdr')
    then received hdr'
    else rest

-- The header fields that are kept; a later one replaces an earlier.
pub record Fields : Type 0 where
  pub connection : Option (List ℕ)
  pub upgrade : Option (List ℕ)
  pub sec_ws_key : Option (List ℕ)
  pub sec_ws_version : Option (List ℕ)

abbrev pub no_fields : Fields
no_fields = record { connection = none; upgrade = none; sec_ws_key = none; sec_ws_version = none }

-- "Connection"
abbrev pub connection_text : List ℕ
connection_text = b'C' ∷ b'o' ∷ b'n' ∷ b'n' ∷ b'e' ∷ b'c' ∷ b't' ∷ b'i' ∷ b'o' ∷ b'n' ∷ []

-- "Upgrade"
abbrev pub upgrade_text : List ℕ
upgrade_text = b'U' ∷ b'p' ∷ b'g' ∷ b'r' ∷ b'a' ∷ b'd' ∷ b'e' ∷ []

-- "Sec-WebSocket-"
abbrev sec_text : List ℕ
sec_text =
    b'S' ∷ b'e' ∷ b'c' ∷ b'-' ∷ b'W' ∷ b'e' ∷ b'b' ∷ b'S' ∷ b'o' ∷ b'c' ∷ b'k' ∷ b'e' ∷ b't' ∷ b'-'
    ∷ []

abbrev pub key_text : List ℕ
key_text = sec_text ++ (b'K' ∷ b'e' ∷ b'y' ∷ [])

abbrev pub version_text : List ℕ
version_text = sec_text ++ (b'V' ∷ b'e' ∷ b'r' ∷ b's' ∷ b'i' ∷ b'o' ∷ b'n' ∷ [])

-- "websocket"
abbrev pub websocket_text : List ℕ
websocket_text = b'w' ∷ b'e' ∷ b'b' ∷ b's' ∷ b'o' ∷ b'c' ∷ b'k' ∷ b'e' ∷ b't' ∷ []

-- One header field.
pub keep_field : List ℕ → List ℕ → Fields → Fields
keep_field key val f =
    if same_bytes key connection_text
    then record f { connection = some val }
    else if same_bytes key upgrade_text
    then record f { upgrade = some val }
    else if same_bytes key key_text
    then record f { sec_ws_key = some val }
    else if same_bytes key version_text
    then record f { sec_ws_version = some val }
    else f

-- The loop over the lines behind the first; `none` is a line without ": ".
pub read_fields : List (List ℕ) → Fields → Option Fields
read_fields [] f = some f
read_fields (line ∷ rest) f = elim (split_colon line) [
  | none ↦ none
  | some (key, val) ↦ read_fields rest (keep_field key val f)
]

has_upgrade : Option (List ℕ) → Bool
has_upgrade none = false
has_upgrade (some val) = contains upgrade_text val

is_text : List ℕ → Option (List ℕ) → Bool
is_text text none = false
is_text text (some val) = same_bytes val text

-- The key, where the fields ask for a WebSocket of version 13.
good_key : Bool → Option (List ℕ) → Option (List ℕ)
good_key good none = none
good_key good (some key) = if good && ltb 0 (length key) then some key else none

pub wanted_key : Fields → Option (List ℕ)
unfolding has_upgrade is_text good_key
wanted_key f =
    good_key
      (has_upgrade f.connection
        && is_text websocket_text f.upgrade
        && is_text (b'1' ∷ b'3' ∷ []) f.sec_ws_version)
      f.sec_ws_key

-- "258EAFA5-E914-47DA-95CA-C5AB0DC85B11"
abbrev guid : List ℕ
guid =
    b'2' ∷ b'5' ∷ b'8' ∷ b'E' ∷ b'A' ∷ b'F' ∷ b'A' ∷ b'5' ∷ b'-' ∷ b'E' ∷ b'9' ∷ b'1' ∷ b'4' ∷ b'-'
    ∷ b'4' ∷ b'7' ∷ b'D' ∷ b'A' ∷ b'-' ∷ b'9' ∷ b'5' ∷ b'C' ∷ b'A' ∷ b'-' ∷ b'C' ∷ b'5' ∷ b'A'
    ∷ b'B' ∷ b'0' ∷ b'D' ∷ b'C' ∷ b'8' ∷ b'5' ∷ b'B' ∷ b'1' ∷ b'1' ∷ []

-- What the system does: whether the socket could be made blocking, and not blocking again, the first
-- allocation, the ones of the loop and of the last ring, what `recv` returns, and whether `send` works.
pub record WsCalls : Type 0 where
  pub blocking : Bool
  pub memory : Bool
  pub grants : ℕ → Bool
  pub chunks : List (Option (List ℕ))
  pub sends : Bool
  pub nonblocking : Bool
  pub ring_memory : Bool

-- "HTTP/"
abbrev pub http_text : List ℕ
http_text = b'H' ∷ b'T' ∷ b'T' ∷ b'P' ∷ b'/' ∷ []

-- " 101 Switching Protocols\r\nConnection: Upgrade\r\nUpgrade: websocket\r\nSec-WebSocket-Accept: "
abbrev pub switching_text : List ℕ
switching_text =
    32 ∷ b'1' ∷ b'0' ∷ b'1' ∷ 32 ∷ b'S' ∷ b'w' ∷ b'i' ∷ b't' ∷ b'c' ∷ b'h' ∷ b'i' ∷ b'n' ∷ b'g' ∷ 32
    ∷ b'P' ∷ b'r' ∷ b'o' ∷ b't' ∷ b'o' ∷ b'c' ∷ b'o' ∷ b'l' ∷ b's' ∷ 13 ∷ 10 ∷ b'C' ∷ b'o' ∷ b'n'
    ∷ b'n' ∷ b'e' ∷ b'c' ∷ b't' ∷ b'i' ∷ b'o' ∷ b'n' ∷ b':' ∷ 32 ∷ b'U' ∷ b'p' ∷ b'g' ∷ b'r' ∷ b'a'
    ∷ b'd' ∷ b'e' ∷ 13 ∷ 10 ∷ b'U' ∷ b'p' ∷ b'g' ∷ b'r' ∷ b'a' ∷ b'd' ∷ b'e' ∷ b':' ∷ 32 ∷ b'w'
    ∷ b'e' ∷ b'b' ∷ b's' ∷ b'o' ∷ b'c' ∷ b'k' ∷ b'e' ∷ b't' ∷ 13 ∷ 10 ∷ b'S' ∷ b'e' ∷ b'c' ∷ b'-'
    ∷ b'W' ∷ b'e' ∷ b'b' ∷ b'S' ∷ b'o' ∷ b'c' ∷ b'k' ∷ b'e' ∷ b't' ∷ b'-' ∷ b'A' ∷ b'c' ∷ b'c'
    ∷ b'e' ∷ b'p' ∷ b't' ∷ b':' ∷ 32 ∷ []

-- The answer, for the text that is made of the key.
pub response : Signed → Signed → List ℕ → List ℕ
response major minor accept =
    http_text
    ++ (print_int major ++ (b'.' ∷ (print_int minor ++ (switching_text ++ (accept ++ blank_line)))))

-- The answer is sent, and the socket is made a WebSocket's, if it can be made non-blocking again.
ws_ring : Socket → Option Ring → Bool × Socket
ws_ring sock none = (false, record sock { ws_enabled = true })
ws_ring sock (some ring) = (true, record sock { ws_enabled = true; ws_rbuf = ring })

pub switch_over : WsCalls → Socket → List ℕ → Upgraded
unfolding ws_ring
switch_over calls sock answer =
    let (done, sock') = ws_ring sock (Ring.init calls.ring_memory 0) in
    if leb 200 (length answer)
    then crashed
    else if not calls.sends
    then ended false sock []
    else if not calls.nonblocking
    then ended true sock answer
    else ended done sock' answer

module _ (encoded_sha1 : List ℕ → List ℕ) where
  answer_key : WsCalls → Socket → RequestLine → Option (List ℕ) → Upgraded
  answer_key calls sock line none = ended false sock []
  answer_key calls sock line (some key) =
      switch_over calls sock (response line.major line.minor (encoded_sha1 (key ++ guid)))

  answer_fields : WsCalls → Socket → RequestLine → Option Fields → Upgraded
  answer_fields calls sock line none = ended false sock []
  answer_fields calls sock line (some f) = answer_key calls sock line (wanted_key f)

  -- A first line that could be read.
  pub answer_line : WsCalls → Socket → List (List ℕ) → Option RequestLine → Upgraded
  unfolding answer_fields answer_key
  answer_line calls sock rest none = ended false sock []
  answer_line calls sock rest (some line) =
      if not (same_bytes line.method (b'G' ∷ b'E' ∷ b'T' ∷ []))
      then ended false sock []
      else if too_old line.major line.minor
      then ended false sock []
      else answer_fields calls sock line (read_fields rest no_fields)

  -- `sscanf` reads its text where there is no line at all.
  pub answer_lines : WsCalls → Socket → List (List ℕ) → Upgraded
  answer_lines calls sock [] = crashed
  answer_lines calls sock (line ∷ rest) = answer_line calls sock rest (request_line line)

  pub answer_received : WsCalls → Socket → Received → Upgraded
  unfolding answer_lines
  answer_received calls sock (received hdr) = answer_lines calls sock (lines (c_string hdr))
  answer_received calls sock failed = ended false sock []
  answer_received calls sock more_to_come = reading_on
  answer_received calls sock out_of_bounds = crashed

  -- `dime_socket_init_ws`
  pub init_ws : WsCalls → Socket → Upgraded
  unfolding answer_received receive
  init_ws calls sock =
      if calls.blocking && calls.memory
      then answer_received calls sock (receive calls.grants 500 [] calls.chunks)
      else ended false sock []
