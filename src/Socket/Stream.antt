-- ===== src/Socket/Stream.antt =====
-- A sequence of messages through two plain sockets: pushed on one, carried over, popped on the other
-- by the loop with which `dime_server_loop` empties a socket.
use dime.Base.{
  ℕ, zero, suc, ◌+◌, ◌*◌, ◌<◌, ◌^◌, ◌≤◌, ◌≡◌, refl, sym, ap, ◌∙◌, subst, true, false, none, some,
  List, [], ◌∷◌, ◌++◌, arith, length, length-append, append_assoc, append-nil,
}
use dime.Ring.Valid.{IsValid, contents, length-contents}
use dime.Socket.State.{Socket}
use dime.Socket.Receiving.{Loaded, loaded, same_bytes, message, nothing, failed, overrun, pop}
use dime.Socket.Sending.{magic, push_str}
use dime.Socket.Push.{frame, Pushed, push_str-Pushed, wire}
use dime.Socket.Pop.{pop-frame, pop-plain, pop_message-short, pop_message-no_magic, length-frame}

-- A message as its sender hands it over: the text of its JSON part, and its binary part.
pub record Letter : Type 0 where
  pub jsonstr : List ℕ
  pub bindata : List ℕ

abbrev pub frames : List Letter → List ℕ
frames [] = []
frames (m ∷ ms) = frame m.jsonstr m.bindata ++ frames ms

-- One `dime_socket_push_str` for each message.
pub push_all : ℕ → Socket → List Letter → Socket
push_all junk sock [] = sock
push_all junk sock (m ∷ ms) =
    push_all junk (push_str (λ i. true) junk sock m.jsonstr m.bindata).1 ms

-- Room for the messages, with what a WebSocket frame may add.
abbrev pub load_of : List Letter → ℕ
load_of [] = 0
load_of (m ∷ ms) = 22 + length m.jsonstr + length m.bindata + load_of ms

plain_push :
    (junk : ℕ) (sock : Socket) (m : Letter)
    → sock.ws_enabled ≡ false
    → IsValid sock.wbuf
    → 3 * (sock.wbuf.len + (22 + length m.jsonstr + length m.bindata)) < 2 ^ 64
    → Pushed sock (frame m.jsonstr m.bindata) (push_str (λ i. true) junk sock m.jsonstr m.bindata)
plain_push junk sock m off v small =
    subst
      (λ b.
        Pushed sock (wire b m.jsonstr m.bindata)
          (push_str (λ i. true) junk sock m.jsonstr m.bindata))
      off (push_str-Pushed junk sock m.jsonstr m.bindata v small)

push_all-frames :
    (junk : ℕ) (sock : Socket) (ms : List Letter)
    → sock.ws_enabled ≡ false
    → IsValid sock.wbuf
    → 3 * (sock.wbuf.len + load_of ms) < 2 ^ 64
    → contents (push_all junk sock ms).wbuf ≡ contents sock.wbuf ++ frames ms
unfolding push_all
push_all-frames junk sock [] off v small = sym (append-nil (contents sock.wbuf))
push_all-frames junk sock (m ∷ ms) off v small =
    let out = push_str (λ i. true) junk sock m.jsonstr m.bindata in
    let p = plain_push junk sock m off v (omega arith) in
    let off' = ap (λ (s : Socket). s.ws_enabled) p.3 ∙ off in
    let len' : out.1.wbuf.len ≡ sock.wbuf.len + length (frame m.jsonstr m.bindata) = omega (
      arith,
      ap length p.2,
      length-contents out.1.wbuf,
      length-contents sock.wbuf,
      length-append {0} (contents sock.wbuf) (frame m.jsonstr m.bindata),
    ) in
    push_all-frames junk out.1 ms off' p.1 (omega (arith, len', length-frame m.jsonstr m.bindata))
    ∙ ap (λ k. k ++ frames ms) p.2
    ∙ append_assoc (contents sock.wbuf) (frame m.jsonstr m.bindata) (frames ms)

pub push_all-IsValid :
    (junk : ℕ) (sock : Socket) (m : Letter)
    → sock.ws_enabled ≡ false
    → IsValid sock.wbuf
    → 3 * (sock.wbuf.len + load_of (m ∷ [])) < 2 ^ 64
    → IsValid (push_all junk sock (m ∷ [])).wbuf
unfolding push_all
push_all-IsValid junk sock m off v small = (plain_push junk sock m off v (omega arith)).1

-- How the loop over `dime_socket_pop` ends: with the messages that it has handled, when that returns 0
-- or -1; it is not at its end yet, or it has read outside its memory.
pub data Drained (J : Type 0) : Type 0 where
  drained stopped : List (J × List ℕ) → Socket → Drained J
  unfinished overran : Drained J

pub and_handled : {J : Type 0} → J × List ℕ → Drained J → Drained J
and_handled m (drained ms sock) = drained (m ∷ ms) sock
and_handled m (stopped ms sock) = stopped (m ∷ ms) sock
and_handled m unfinished = unfinished
and_handled m overran = overran

abbrev all_handled : {J : Type 0} → List (J × List ℕ) → Drained J → Drained J
all_handled [] d = d
all_handled (m ∷ ms) d = and_handled m (all_handled ms d)

all_drained :
    {J : Type 0} (ms : List (J × List ℕ)) (sock : Socket)
    → all_handled ms (drained [] sock) ≡ drained ms sock
unfolding and_handled
all_drained [] sock = refl
all_drained (m ∷ ms) sock = ap (and_handled m) (all_drained ms sock)

all_stopped :
    {J : Type 0} (ms : List (J × List ℕ)) (sock : Socket)
    → all_handled ms (stopped [] sock) ≡ stopped ms sock
unfolding and_handled
all_stopped [] sock = refl
all_stopped (m ∷ ms) sock = ap (and_handled m) (all_stopped ms sock)

-- A round for each message, and then some.
abbrev rounds : List Letter → ℕ → ℕ
rounds [] n = n
rounds (m ∷ ms) n = suc (rounds ms n)

one_more : (ms : List Letter) → suc (length ms) ≡ rounds ms 1
one_more [] = refl
one_more (m ∷ ms) = ap suc (one_more ms)

module _ {J : Type 0} (json_loadb : List ℕ → ℕ → Loaded J) where
  -- The loop of `dime_server_loop` over `dime_socket_pop`, for at most `fuel` rounds; where that returns
  -- -1 so does `dime_server_loop`. What is done with a message is the business of `Request`.
  pub drain : ℕ → Socket → Drained J
  unfolding and_handled
  drain zero sock = unfinished
  drain (suc fuel) sock = elim (pop json_loadb (suc fuel) (λ i. true) (λ i. true) 0 sock) [
    | none ↦ unfinished
    | some (nothing sock') ↦ drained [] sock'
    | some (failed sock') ↦ stopped [] sock'
    | some overrun ↦ overran
    | some (message n x bindata sock') ↦ and_handled (x, bindata) (drain fuel sock')
  ]

  -- Every text is one that the library reads, and every message is short enough for its header.
  abbrev pub Readable : List Letter → List J → Type 0
  Readable [] [] = Unit {0}
  Readable [] (x ∷ xs) = ⊥
  Readable (m ∷ ms) [] = ⊥
  Readable (m ∷ ms) (x ∷ xs) =
      (json_loadb m.jsonstr (length m.jsonstr) ≡ loaded x)
      × (12 + length m.jsonstr + length m.bindata < 2 ^ 32)
      × Readable ms xs

  abbrev pub pairs : List Letter → List J → List (J × List ℕ)
  pairs [] xs = []
  pairs (m ∷ ms) [] = []
  pairs (m ∷ ms) (x ∷ xs) = (x, m.bindata) ∷ pairs ms xs

  -- The messages that a ring begins with are handled, and the loop goes on with what stands behind them.
  drain-frames :
      (n : ℕ) (sock : Socket) (ms : List Letter) (xs : List J) (rest : List ℕ)
      → sock.ws_enabled ≡ false
      → IsValid sock.rbuf
      → contents sock.rbuf ≡ frames ms ++ rest
      → Readable ms xs
      → (sock' : Socket) × (drain (rounds ms n) sock ≡ all_handled (pairs ms xs) (drain n sock'))
        × (sock'.ws_enabled ≡ false)
        × IsValid sock'.rbuf
        × (contents sock'.rbuf ≡ rest)
  unfolding drain
  drain-frames n sock [] [] rest off v e reads = (sock, refl, off, v, e)
  drain-frames n sock [] (x ∷ xs) rest off v e reads = absurd reads
  drain-frames n sock (m ∷ ms) [] rest off v e reads = absurd reads
  drain-frames n sock (m ∷ ms) (x ∷ xs) rest off v e reads =
      let p =
        pop-frame json_loadb (suc (rounds ms n)) (λ i. true) 0 sock m.jsonstr m.bindata
          (frames ms ++ rest) x off v
          (e ∙ append_assoc (frame m.jsonstr m.bindata) (frames ms) rest) reads.1 reads.0 in
      let off' = ap (λ (s : Socket). s.ws_enabled) p.4 ∙ off in
      let ih = drain-frames n p.0 ms xs rest off' p.2 p.3 reads.2 in
      (ih.0, rw (p.1, ih.1, drain) refl, ih.2, ih.3, ih.4)

  -- Between two plain sockets with valid rings, where memory is granted: if the receiver's incoming
  -- ring holds what pushing some messages puts into the sender's empty outgoing ring, the server's
  -- loop pops exactly those messages, in order, with their binary parts unchanged, and leaves the
  -- ring empty. Each message has less than 2 ^ 32 bytes with its header and a text that the JSON
  -- library reads, and all of them, with 22 bytes more for each, less than a third of 2 ^ 64.
  pub drain-push_all :
      (junk : ℕ) (sender receiver : Socket) (ms : List Letter) (xs : List J)
      → sender.ws_enabled ≡ false
      → receiver.ws_enabled ≡ false
      → IsValid sender.wbuf
      → IsValid receiver.rbuf
      → contents sender.wbuf ≡ []
      → 3 * load_of ms < 2 ^ 64
      → Readable ms xs
      → contents receiver.rbuf ≡ contents (push_all junk sender ms).wbuf
      → (last : Socket) × (drain (suc (length ms)) receiver ≡ drained (pairs ms xs) last)
        × (contents last.rbuf ≡ [])
  unfolding drain
  drain-push_all junk sender receiver ms xs off off' v v' empty small reads carried =
      let whole =
        carried
        ∙ push_all-frames junk sender ms off v
            (omega (arith, ap length empty, length-contents sender.wbuf))
        ∙ ap (λ k. k ++ frames ms) empty
        ∙ sym (append-nil (frames ms)) in
      let (last, handled, off_last, v_last, e_last) =
        drain-frames 1 receiver ms xs [] off' v' whole reads in
      let short : last.rbuf.len < 12 = omega (arith, ap length e_last, length-contents last.rbuf) in
      let ends : drain 1 last ≡ drained [] last =
        rw
          (
            pop-plain json_loadb 1 (λ i. true) (λ i. true) 0 last off_last
                ∙ ap some (pop_message-short json_loadb last v_last short),
            drain,
          )
          refl in
      (
        last,
        ap (λ n. drain n receiver) (one_more ms)
            ∙ handled
            ∙ ap (all_handled (pairs ms xs)) ends
            ∙ all_drained (pairs ms xs) last,
        e_last,
      )

  -- Where a plain connection's valid incoming ring holds some messages and then, behind them, twelve
  -- bytes or more that do not begin with "DiME", the server's loop pops those messages, in order, and
  -- then returns -1, with the bytes behind them left in the ring; it means to go on for its other
  -- clients. Memory is granted, each message has less than 2 ^ 32 bytes with its header, and the JSON
  -- library reads its text.
  pub drain-malformed :
      (sock : Socket) (ms : List Letter) (xs : List J) (a b c d : ℕ) (rest : List ℕ)
      → sock.ws_enabled ≡ false
      → IsValid sock.rbuf
      → contents sock.rbuf ≡ frames ms ++ (a ∷ b ∷ c ∷ d ∷ rest)
      → 8 ≤ length rest
      → same_bytes (a ∷ b ∷ c ∷ d ∷ []) magic ≡ false
      → Readable ms xs
      → (last : Socket) × (drain (suc (length ms)) sock ≡ stopped (pairs ms xs) last)
        × (contents last.rbuf ≡ a ∷ b ∷ c ∷ d ∷ rest)
  unfolding drain
  drain-malformed sock ms xs a b c d rest off v e long bad reads =
      let (last, handled, off_last, v_last, e_last) =
        drain-frames 1 sock ms xs (a ∷ b ∷ c ∷ d ∷ rest) off v e reads in
      let ends : drain 1 last ≡ stopped [] last =
        rw
          (
            pop-plain json_loadb 1 (λ i. true) (λ i. true) 0 last off_last
                ∙ ap some
                    (pop_message-no_magic json_loadb last a b c d rest v_last e_last long bad),
            drain,
          )
          refl in
      (
        last,
        ap (λ n. drain n sock) (one_more ms)
            ∙ handled
            ∙ ap (all_handled (pairs ms xs)) ends
            ∙ all_stopped (pairs ms xs) last,
        e_last,
      )
