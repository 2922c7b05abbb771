-- ===== src/Socket/Upgrade/Answered.antt =====
-- A whole request to `dime_socket_init_ws`, in pieces, and its answer.
use dime.Base.{
  ℕ, zero, suc, ◌<◌, ◌^◌, ◌≡◌, refl, ap, sym, ◌∙◌, true, false, Option, none, some, List, [], ◌∷◌,
  ◌++◌, arith, length, length-append, leb, ◌==◌, map, subst,
}
use dime.Ring.{Ring}
use dime.Ring
use dime.Ring.Valid.{IsValid, contents, init-IsValid, init_granted}
use dime.Socket.State.{Socket}
use dime.Socket.Receiving.{same_bytes}
use dime.Socket.Upgrade.{
  Upgraded, ended, received, receive, blank_line, WsCalls, switching_text, http_text, guid,
  response, ws_ring, switch_over, answer_key, answer_fields, answer_line, answer_lines,
  answer_received, init_ws, no_fields,
}
use dime.Socket.Upgrade.Http.{
  c_string, contains, is_space, skip_spaces, word, Signed, digits, read_int, literal, RequestLine,
  request_line, too_old, print_int, decimal,
}
use dime.Socket.Upgrade.Lines.{
  AllInner, IsLine, AllLines, ended_lines, no_blank, blank_at_end, lines-ended_lines,
  c_string-ended_lines, c_string-take, IsLine-AllInner,
}
use dime.Socket.Upgrade.Reading.{joined, Asked, receive_lem}
use dime.Socket.Upgrade.Headers.{
  Field, field_line, GoodField, GoodFields, read_fields-lines, asked_key, wanted-asked,
}

-- A byte of the target: no space, and no zero.
abbrev pub Ink : List ℕ → Type 0
Ink [] = Unit {0}
Ink (c ∷ cs) = (is_space c ≡ false) × (c == 0 ≡ false) × Ink cs

-- " HTTP/1.1"
abbrev version_end : List ℕ
version_end = 32 ∷ b'H' ∷ b'T' ∷ b'T' ∷ b'P' ∷ b'/' ∷ b'1' ∷ b'.' ∷ b'1' ∷ []

-- "GET", the target and the version.
abbrev pub get_line : List ℕ → List ℕ
get_line target = b'G' ∷ b'E' ∷ b'T' ∷ 32 ∷ (target ++ version_end)

abbrev one : Signed
one = record { negative = false; magnitude = 1 }

abbrev get_one : RequestLine
get_one = record { method = b'G' ∷ b'E' ∷ b'T' ∷ []; major = one; minor = one }

word-Ink :
    (n : ℕ) (cs rest : List ℕ)
    → Ink cs
    → length cs < n
    → word n (cs ++ (32 ∷ rest)) ≡ (cs, 32 ∷ rest)
unfolding word
word-Ink zero cs rest i short = absurd (omega (arith, short))
word-Ink (suc n) [] rest i short = refl
word-Ink (suc n) (c ∷ cs) rest (i, z, is) short =
    ground (arith, word-Ink n cs rest is (omega (arith, short)))

request_line-get :
    (c : ℕ) (cs : List ℕ) → Ink (c ∷ cs) → request_line (get_line (c ∷ cs)) ≡ some get_one
unfolding request_line skip_spaces word literal read_int digits
request_line-get c cs i =
    rw
      (
        i.0,
        word-Ink (suc (suc (length (cs ++ version_end)))) (c ∷ cs)
            (b'H' ∷ b'T' ∷ b'T' ∷ b'P' ∷ b'/' ∷ b'1' ∷ b'.' ∷ b'1' ∷ []) i
            (omega (arith, length-append cs version_end)),
      )
      refl

Ink-Inner : (cs rest : List ℕ) → Ink cs → AllInner rest → AllInner (cs ++ rest)
Ink-Inner [] rest i r = r
Ink-Inner (c ∷ cs) rest (i, z, is) r = (ground arith, Ink-Inner cs rest is r)

Inner-append : (cs rest : List ℕ) → AllInner cs → AllInner rest → AllInner (cs ++ rest)
Inner-append [] rest i r = r
Inner-append (c ∷ cs) rest (i, is) r = (i, Inner-append cs rest is r)

get_line-IsLine : (target : List ℕ) → Ink target → IsLine (get_line target)
get_line-IsLine target i = (
  (refl, refl, refl),
  (
    (refl, refl, refl),
    ((refl, refl, refl), ((refl, refl, refl), Ink-Inner target version_end i (ground arith))),
  ),
)

key-IsLine : (key val : List ℕ) → AllInner key → AllInner val → IsLine (key ++ (b':' ∷ b' ' ∷ val))
key-IsLine [] val i v = ((refl, refl, refl), ((refl, refl, refl), v))
key-IsLine (c ∷ cs) val (i, is) v =
    (i, Inner-append cs (b':' ∷ b' ' ∷ val) is ((refl, refl, refl), ((refl, refl, refl), v)))

field_line-IsLine : (f : Field) → GoodField f → IsLine (field_line f)
field_line-IsLine f (i, n, v) = key-IsLine f.key f.val i v

fields-AllLines : (hs : List Field) → GoodFields hs → AllLines (map field_line hs)
fields-AllLines [] g = tt
fields-AllLines (h ∷ hs) (g, gs) = (field_line-IsLine h g, fields-AllLines hs gs)

-- The lines of a request with this target and these header fields.
abbrev pub request_lines : List ℕ → List Field → List (List ℕ)
request_lines target hs = get_line target ∷ map field_line hs

module _ (encoded_sha1 : List ℕ → List ℕ) (calls : WsCalls) (sock : Socket) where
  -- The answer to a key, or to a request that asks for no WebSocket.
  abbrev pub Answers : Option (List ℕ) → Upgraded → Type 0
  Answers none out = out ≡ ended false sock []
  Answers (some key) out =
      (ring : Ring) × (IsValid ring)
      × (contents ring ≡ [])
      × (out
          ≡ ended true (record sock { ws_enabled = true; ws_rbuf = ring })
              (http_text
                ++ (b'1'
                    ∷ b'.'
                    ∷ b'1'
                    ∷ (switching_text ++ (encoded_sha1 (key ++ guid) ++ blank_line)))))

  switched :
      (answer : List ℕ) (ring : Ring)
      → calls.sends ≡ true
      → calls.nonblocking ≡ true
      → calls.ring_memory ≡ true
      → Ring.init true 0 ≡ some ring
      → leb 200 (length answer) ≡ false
      → switch_over calls sock answer
        ≡ ended true (record sock { ws_enabled = true; ws_rbuf = ring }) answer
  unfolding switch_over ws_ring
  switched answer ring sends nonblocking memory up short =
      rw (sends, nonblocking, memory, up, short) refl

  switch_over-Answers :
      (key : List ℕ)
      → calls.sends ≡ true
      → calls.nonblocking ≡ true
      → calls.ring_memory ≡ true
      → length (encoded_sha1 (key ++ guid)) ≡ 28
      → Answers (some key) (switch_over calls sock (response one one (encoded_sha1 (key ++ guid))))
  unfolding response print_int decimal
  switch_over-Answers key sends nonblocking memory size =
      let accept = encoded_sha1 (key ++ guid) in
      let short : length (accept ++ blank_line) ≡ 32 =
        omega (arith, size, length-append accept blank_line) in
      let (ring, up) = init_granted 0 in
      let (valid, is_empty) = init-IsValid true 0 up in
      (
        ring,
        valid,
        is_empty,
        switched (response one one accept) ring sends nonblocking memory up (ground (arith, short)),
      )

  key-Answers :
      (k : Option (List ℕ))
      → calls.sends ≡ true
      → calls.nonblocking ≡ true
      → calls.ring_memory ≡ true
      → ((text : List ℕ) → length (encoded_sha1 text) ≡ 28)
      → Answers k (answer_key encoded_sha1 calls sock get_one k)
  unfolding answer_key
  key-Answers none sends nonblocking memory size = refl
  key-Answers (some key) sends nonblocking memory size =
      switch_over-Answers key sends nonblocking memory (size (key ++ guid))

  lines-answered :
      (c : ℕ) (cs : List ℕ) (hs : List Field)
      → Ink (c ∷ cs)
      → GoodFields hs
      → answer_received encoded_sha1 calls sock (received (ended_lines (request_lines (c ∷ cs) hs)))
        ≡ answer_key encoded_sha1 calls sock get_one (asked_key hs)
  unfolding answer_received answer_lines answer_line answer_fields too_old same_bytes
  lines-answered c cs hs ink good =
      let good_lines : AllLines (request_lines (c ∷ cs) hs) =
        (get_line-IsLine (c ∷ cs) ink, fields-AllLines hs good) in
      rw
        (
          c_string-ended_lines (request_lines (c ∷ cs) hs) good_lines,
          lines-ended_lines (request_lines (c ∷ cs) hs) good_lines,
          request_line-get c cs ink,
          read_fields-lines hs no_fields good,
          wanted-asked hs,
        )
        refl

  -- A request for a WebSocket, from HTTP 1.1, is answered as it must be, however it is cut into pieces on
  -- its way: where the last header fields of each name ask for version 13, with a key, the answer that
  -- is sent holds what is made of that key, and the socket is a WebSocket's, with an empty ring;
  -- otherwise nothing is sent and the result is -1. The system's calls succeed, `recv` gives some bytes
  -- and no more than are asked for, the encoded SHA-1 has 28 bytes, the target has no space, and the
  -- header fields no line ends, no zeros, and no colon in their names.
  pub init_ws_lem :
      (c : ℕ) (cs : List ℕ) (hs : List Field) (chunks : List (List ℕ))
      (later : List (Option (List ℕ)))
      → calls.blocking ≡ true
      → calls.memory ≡ true
      → ((i : ℕ) → calls.grants i ≡ true)
      → calls.sends ≡ true
      → calls.nonblocking ≡ true
      → calls.ring_memory ≡ true
      → ((text : List ℕ) → length (encoded_sha1 text) ≡ 28)
      → Ink (c ∷ cs)
      → GoodFields hs
      → calls.chunks ≡ map some chunks ++ later
      → Asked 500 0 chunks
      → joined chunks ≡ ended_lines (request_lines (c ∷ cs) hs)
      → length (joined chunks) < 2 ^ 60
      → Answers (asked_key hs) (init_ws encoded_sha1 calls sock)
  unfolding init_ws
  init_ws_lem c cs hs chunks later b m g sends nonblocking memory size ink good arrives asked whole
        small =
      let ls = request_lines (c ∷ cs) hs in
      let good_lines : AllLines ls = (get_line-IsLine (c ∷ cs) ink, fields-AllLines hs good) in
      let text = ended_lines ls in
      let clean : c_string text ≡ text = c_string-ended_lines ls good_lines in
      let got : receive calls.grants 500 [] (map some chunks ++ later) ≡ received text =
        receive_lem calls.grants 500 [] chunks text later g (omega arith) asked whole (omega arith)
          (omega (arith, ap length whole, small))
          (ap (contains blank_line) clean ∙ blank_at_end (get_line (c ∷ cs)) (map field_line hs))
          (λ k k_in.
            ap (contains blank_line) (c_string-take k text clean)
            ∙ no_blank k (get_line (c ∷ cs)) (map field_line hs)
                (IsLine-AllInner (get_line (c ∷ cs)) good_lines.0) good_lines.1 k_in) in
      let same : init_ws encoded_sha1 calls sock
          ≡ answer_key encoded_sha1 calls sock get_one (asked_key hs) =
        simp (b, m, ap (receive calls.grants 500 []) arrives ∙ got)
          (lines-answered c cs hs ink good) in
      subst (Answers (asked_key hs)) (sym same)
        (key-Answers (asked_key hs) sends nonblocking memory size)
