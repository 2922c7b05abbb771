-- ===== src/Socket/Examples.antt =====
-- Sockets with some bytes in their rings, and what the theorems say of them.
use dime.Base.{
  ℕ, ◌-◌, ◌<◌, ltb, if◌then◌else◌, length-append, ◌≡◌, refl, true, false, some, List, [], ◌∷◌, ◌++◌,
  arith, length, replicate,
}
use dime.Ring.{Ring}
use dime.Ring.Valid.{IsValid, contents}
use dime.Socket.State.{Socket}
use dime.Socket.Sending.{header, magic, push_str}
use dime.Socket.Receiving.{Loaded, loaded, past_end, same_bytes, message, overrun, pop, pop_message}
use dime.Socket.Push.{frame, wire, Pushed, push_str-Pushed, push_str_loses_text}
use dime.Socket.Pop.{pop-frame, pop_message-overrun}
use dime.Socket.Stuck.{ev_drain, ev_drain_stuck}
use dime.Socket.Stream.{
  drained, stopped, unfinished, drain-malformed, Letter, push_all, push_all-IsValid, drain, pairs,
  drain-push_all,
}

-- A ring of the initial size that holds some bytes from its start on.
abbrev pub holding : List ℕ → Ring
holding bytes = record {
  arr = bytes ++ replicate (1024 - length bytes) 0;
  cap = 1024;
  len = length bytes;
  begin = 0;
  stop = length bytes;
}

abbrev pub connected : Ring → Ring → Socket
connected rbuf wbuf = record {
  fd = 4;
  rbuf = rbuf;
  wbuf = wbuf;
  tls_enabled = false;
  ws_enabled = false;
  zlib_enabled = false;
  ws_rbuf = record { arr = []; cap = 0; len = 0; begin = 0; stop = 0 };
  zlib_rbuf = record { arr = []; cap = 0; len = 0; begin = 0; stop = 0 };
}

abbrev pub fresh : Socket
fresh = connected (holding []) (holding [])

pub fresh-IsValid : IsValid (holding [])
fresh-IsValid = record {
  storage = refl;
  begin_in = ground arith;
  stop_at = refl;
  room = ground arith;
  least = ground arith;
  small = ground arith;
}

-- A JSON library that takes any text that is there for itself.
abbrev any_text : List ℕ → ℕ → Loaded (List ℕ)
any_text bytes n = if ltb (length bytes) n then past_end else loaded bytes

any_text_reads_on :
    (begun more x : List ℕ)
    → 0 < length more
    → any_text (begun ++ more) (length (begun ++ more)) ≡ loaded x
    → any_text begun (length (begun ++ more)) ≡ past_end
any_text_reads_on begun more x left e = ground (arith, length-append {0} begun more)

push_str_example :
    Pushed fresh
      (wire false (123 ∷ 125 ∷ []) (9 ∷ []))
      (push_str (λ i. true) 0 fresh (123 ∷ 125 ∷ []) (9 ∷ []))
push_str_example = push_str-Pushed 0 fresh (123 ∷ 125 ∷ []) (9 ∷ []) fresh-IsValid (ground arith)

-- A text of 1020 bytes, which does not fit behind its header.
abbrev long_text : List ℕ
long_text = replicate 1020 32

push_str_loses_text_example :
    let (ret, sock') = push_str (λ i. false) 0 fresh long_text [] in
    (ret ≡ length (frame long_text []))
    × (contents sock'.wbuf ≡ contents (holding []) ++ header (length long_text) 0)
push_str_loses_text_example =
    push_str_loses_text 0 fresh long_text refl fresh-IsValid (ground arith) (ground arith)
      (ground arith)

-- The frame of `{}` with one byte of binary data, as it stands in the incoming ring.
abbrev framed : List ℕ
framed = 68 ∷ 105 ∷ 77 ∷ 69 ∷ 0 ∷ 0 ∷ 0 ∷ 2 ∷ 0 ∷ 0 ∷ 0 ∷ 1 ∷ 123 ∷ 125 ∷ 9 ∷ []

framed-IsValid : IsValid (holding framed)
framed-IsValid = record {
  storage = refl;
  begin_in = ground arith;
  stop_at = refl;
  room = ground arith;
  least = ground arith;
  small = ground arith;
}

pop_example :
    (sock' : Socket) × (pop any_text 1
        (λ i. true)
        (λ i. true)
        0
        (connected (holding framed) (holding []))
      ≡ some (message 15 (123 ∷ 125 ∷ []) (9 ∷ []) sock'))
    × IsValid sock'.rbuf
    × (contents sock'.rbuf ≡ [])
    × (sock' ≡ record (connected (holding framed) (holding [])) { rbuf = sock'.rbuf })
unfolding header
pop_example =
    pop-frame any_text 1 (λ i. true) 0 (connected (holding framed) (holding [])) (123 ∷ 125 ∷ [])
      (9 ∷ []) [] (123 ∷ 125 ∷ []) refl framed-IsValid refl (ground arith) refl

-- A header that announces the text `{}` and 2 ^ 32 - 13 bytes behind it, a message of one byte.
abbrev bad_header : List ℕ
bad_header = 68 ∷ 105 ∷ 77 ∷ 69 ∷ 0 ∷ 0 ∷ 0 ∷ 2 ∷ 255 ∷ 255 ∷ 255 ∷ 243 ∷ []

bad_header-IsValid : IsValid (holding bad_header)
bad_header-IsValid = record {
  storage = refl;
  begin_in = ground arith;
  stop_at = refl;
  room = ground arith;
  least = ground arith;
  small = ground arith;
}

pop_message-overrun_example :
    pop_message any_text (λ i. true) (connected (holding bad_header) (holding [])) ≡ overrun
unfolding header
pop_message-overrun_example =
    pop_message-overrun any_text any_text_reads_on (connected (holding bad_header) (holding []))
      4294967283 [] [] (123 ∷ 125 ∷ []) (123 ∷ 125 ∷ []) bad_header-IsValid (ground arith) refl refl
      (ground arith) (ground arith) (ground arith) (ground arith) refl

abbrev letter : Letter
letter = record { jsonstr = 123 ∷ 125 ∷ []; bindata = 9 ∷ [] }

abbrev receiver : Socket
receiver = connected (push_all 0 fresh (letter ∷ [])).wbuf (holding [])

drain_example :
    (last : Socket) × (drain any_text 2 receiver
      ≡ drained (pairs any_text (letter ∷ []) ((123 ∷ 125 ∷ []) ∷ [])) last)
    × (contents last.rbuf ≡ [])
drain_example =
    drain-push_all any_text 0 fresh receiver (letter ∷ []) ((123 ∷ 125 ∷ []) ∷ []) refl refl
      fresh-IsValid (push_all-IsValid 0 fresh letter refl fresh-IsValid (ground arith)) refl
      (ground arith) (refl, ground arith, tt) refl

-- A connection over which no message came: "GET / HTTP/1".
abbrev http_bytes : List ℕ
http_bytes = b'G' ∷ b'E' ∷ b'T' ∷ 32 ∷ b'/' ∷ 32 ∷ b'H' ∷ b'T' ∷ b'T' ∷ b'P' ∷ b'/' ∷ b'1' ∷ []

http_bytes-IsValid : IsValid (holding http_bytes)
http_bytes-IsValid = record {
  storage = refl;
  begin_in = omega arith;
  stop_at = refl;
  room = omega arith;
  least = omega arith;
  small = omega arith;
}

ev_drain_example : ev_drain any_text 100 (connected (holding http_bytes) (holding [])) ≡ unfinished
unfolding same_bytes
ev_drain_example =
    ev_drain_stuck any_text 100 (connected (holding http_bytes) (holding [])) b'G' b'E' b'T' 32
      (b'/' ∷ 32 ∷ b'H' ∷ b'T' ∷ b'T' ∷ b'P' ∷ b'/' ∷ b'1' ∷ []) refl http_bytes-IsValid refl
      (omega arith) same
  where
    same : same_bytes (b'G' ∷ b'E' ∷ b'T' ∷ 32 ∷ []) magic ≡ false
    same = refl

-- The frame of `{}` with one byte, and behind it the same bytes.
abbrev then_http : List ℕ
then_http = framed ++ http_bytes

then_http-IsValid : IsValid (holding then_http)
then_http-IsValid = record {
  storage = refl;
  begin_in = omega arith;
  stop_at = refl;
  room = omega arith;
  least = omega arith;
  small = omega arith;
}

drain-malformed_example :
    (last : Socket) × (drain any_text 2 (connected (holding then_http) (holding []))
      ≡ stopped (pairs any_text (letter ∷ []) ((123 ∷ 125 ∷ []) ∷ [])) last)
    × (contents last.rbuf ≡ http_bytes)
unfolding header same_bytes
drain-malformed_example =
    drain-malformed any_text (connected (holding then_http) (holding [])) (letter ∷ [])
      ((123 ∷ 125 ∷ []) ∷ []) b'G' b'E' b'T' 32
      (b'/' ∷ 32 ∷ b'H' ∷ b'T' ∷ b'T' ∷ b'P' ∷ b'/' ∷ b'1' ∷ []) refl then_http-IsValid refl
      (omega arith) refl (refl, ground arith, tt)
