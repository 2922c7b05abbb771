-- ===== src/Socket/Push.antt =====
-- `dime_socket_push_str` puts one framed message into the outgoing ring.
use dime.Base.{
  ℕ, ◌+◌, ◌*◌, ◌≤◌, ◌<◌, ◌^◌, ◌≡◌, refl, sym, ap, ◌∙◌, subst, Bool-cases, Bool, true, false, List,
  [], ◌++◌, inl, inr, arith, length, length-append, append_assoc, if◌then◌else◌, add_size,
}
use dime.Ring.{Ring}
use dime.Ring.Valid.{IsValid, contents, length-contents}
use dime.Ring.{store}
use dime.Ring.Write.{
  write_granted, write_fitting, write_denied, write_nil, store-sizes, contents-store,
}
use dime.Socket.State.{Socket}
use dime.Socket.Sending.{header, ws_header, write_checked, write_header, write_message, push_str}

-- A message as it goes over the wire, without and with its WebSocket frame.
abbrev pub frame : List ℕ → List ℕ → List ℕ
frame jsonstr bindata = header (length jsonstr) (length bindata) ++ (jsonstr ++ bindata)

abbrev pub wire : Bool → List ℕ → List ℕ → List ℕ
wire ws jsonstr bindata =
    (if ws then ws_header (12 + length jsonstr + length bindata) else []) ++ frame jsonstr bindata

pub length-header : (j b : ℕ) → length (header j b) ≡ 12
unfolding header
length-header j b = refl

-- What a checked write does where memory is granted.
abbrev Appends : Ring → List ℕ → Bool × Ring → Type 0
Appends r buf out =
    (out.0 ≡ true)
    × IsValid out.1
    × (contents out.1 ≡ contents r ++ buf)
    × (out.1.len ≡ r.len + length buf)

module _ (junk : ℕ) (r : Ring) (v : IsValid r) where
  checked-Appends :
      (buf : List ℕ)
      → 3 * (r.len + length buf) < 2 ^ 64
      → Appends r buf (write_checked true junk r buf)
  unfolding write_checked
  checked-Appends buf small =
      let w = write_granted junk r buf v small in (ground (arith, w), w.1, w.2, w.3)

  header-Appends :
      (j b : ℕ)
      → 3 * (r.len + 12) < 2 ^ 64
      → Appends r (header j b) (write_header true junk r (header j b))
  unfolding write_header
  header-Appends j b small =
      let w = write_granted junk r (header j b) v (omega (arith, length-header j b)) in
      (ground (arith, w, length-header j b), w.1, w.2, w.3)

join :
    (r r₁ r₂ : Ring) (x y : List ℕ)
    → contents r₁ ≡ contents r ++ x
    → contents r₂ ≡ contents r₁ ++ y
    → contents r₂ ≡ contents r ++ (x ++ y)
join r r₁ r₂ x y e f = f ∙ ap (λ k. k ++ y) e ∙ append_assoc (contents r) x y

message-Appends :
    (junk : ℕ) (r : Ring) (jsonstr bindata : List ℕ)
    → IsValid r
    → 3 * (r.len + (12 + length jsonstr + length bindata)) < 2 ^ 64
    → Appends r (frame jsonstr bindata) (write_message (λ i. true) junk r jsonstr bindata)
unfolding write_message
message-Appends junk r jsonstr bindata v small =
    let hdr = header (length jsonstr) (length bindata) in
    let one = header-Appends junk r v (length jsonstr) (length bindata) (omega arith) in
    let (ok₁, r₁) = write_header true junk r hdr in
    let h₁ : r₁.len ≡ r.len + 12 = one.3 ∙ ap (λ k. r.len + k) (length-header _ _) in
    let two = checked-Appends junk r₁ one.1 jsonstr (omega arith) in
    let (ok₂, r₂) = write_checked true junk r₁ jsonstr in
    let three = checked-Appends junk r₂ two.1 bindata (omega arith) in
    let (ok₃, r₃) = write_checked true junk r₂ bindata in
    let bytes =
      join r r₁ r₃ hdr (jsonstr ++ bindata) one.2 (join r₁ r₂ r₃ jsonstr bindata two.2 three.2) in
    let total : r₃.len ≡ r.len + length (frame jsonstr bindata) = omega (
      arith,
      ap length bytes,
      length-contents r₃,
      length-contents r,
      length-append {0} (contents r) (frame jsonstr bindata),
    ) in
    ground (arith, one.0, two.0, three.0, three.1, bytes, total)

ws_header_bounds : (n : ℕ) → (2 ≤ length (ws_header n)) × (length (ws_header n) ≤ 10)
unfolding ws_header
ws_header_bounds n = ground arith

-- What a push leaves: the message behind what was waiting, and nothing else changed.
abbrev pub Pushed : Socket → List ℕ → ℕ × Socket → Type 0
Pushed sock bytes out =
    (out.0 ≡ length bytes)
    × IsValid out.1.wbuf
    × (contents out.1.wbuf ≡ contents sock.wbuf ++ bytes)
    × (out.1 ≡ record sock { wbuf = out.1.wbuf })

plain-Pushed :
    (junk : ℕ) (sock : Socket) (jsonstr bindata : List ℕ)
    → sock.ws_enabled ≡ false
    → IsValid sock.wbuf
    → 3 * (sock.wbuf.len + (22 + length jsonstr + length bindata)) < 2 ^ 64
    → Pushed sock (frame jsonstr bindata) (push_str (λ i. true) junk sock jsonstr bindata)
unfolding push_str
plain-Pushed junk sock jsonstr bindata off v small =
    let m = message-Appends junk sock.wbuf jsonstr bindata v (omega arith) in
    rw (off, m.0)
      (
        omega (
          arith,
          length-append {0} (header (length jsonstr) (length bindata)) (jsonstr ++ bindata),
          length-header (length jsonstr) (length bindata),
          length-append {0} jsonstr bindata,
        ),
        m.1,
        m.2,
        refl,
      )

framed-Pushed :
    (junk : ℕ) (sock : Socket) (jsonstr bindata : List ℕ)
    → sock.ws_enabled ≡ true
    → IsValid sock.wbuf
    → 3 * (sock.wbuf.len + (22 + length jsonstr + length bindata)) < 2 ^ 64
    → Pushed sock (wire true jsonstr bindata) (push_str (λ i. true) junk sock jsonstr bindata)
unfolding push_str
framed-Pushed junk sock jsonstr bindata on v small =
    let p = add_size (12 + length jsonstr) (length bindata) in
    let same : p ≡ 12 + length jsonstr + length bindata = omega arith in
    let z = ws_header_bounds p in
    let w = checked-Appends junk sock.wbuf v (ws_header p) (omega arith) in
    let ring₀ = (write_checked true junk sock.wbuf (ws_header p)).1 in
    let m = message-Appends junk ring₀ jsonstr bindata w.1 (omega arith) in
    let ring = (write_message (λ i. true) junk ring₀ jsonstr bindata).1 in
    let bytes =
      join sock.wbuf ring₀ ring (ws_header p) (frame jsonstr bindata) w.2 m.2
      ∙ ap (λ k. contents sock.wbuf ++ (ws_header k ++ frame jsonstr bindata)) same in
    rw (on, w.0, m.0)
      (
        omega (
          arith,
          ap (λ k. length (ws_header k)) same,
          length-append {0} (ws_header (12 + length jsonstr + length bindata))
              (frame jsonstr bindata),
          length-append {0} (header (length jsonstr) (length bindata)) (jsonstr ++ bindata),
          length-header (length jsonstr) (length bindata),
          length-append {0} jsonstr bindata,
        ),
        m.1,
        bytes,
        refl,
      )

-- Where memory is granted and the outgoing ring is valid and far from the range of `size_t`,
-- `dime_socket_push_str` appends the wire form of its message to that ring, in a WebSocket frame on
-- a WebSocket connection, returns its length, keeps the ring valid and changes nothing else.
pub push_str-Pushed :
    (junk : ℕ) (sock : Socket) (jsonstr bindata : List ℕ)
    → IsValid sock.wbuf
    → 3 * (sock.wbuf.len + (22 + length jsonstr + length bindata)) < 2 ^ 64
    → Pushed sock
        (wire sock.ws_enabled jsonstr bindata)
        (push_str (λ i. true) junk sock jsonstr bindata)
push_str-Pushed junk sock jsonstr bindata v small = elim (Bool-cases sock.ws_enabled) [
  | inl on ↦
      subst
        (λ b. Pushed sock (wire b jsonstr bindata) (push_str (λ i. true) junk sock jsonstr bindata))
        (sym on) (framed-Pushed junk sock jsonstr bindata on v small)
  | inr off ↦
      subst
        (λ b. Pushed sock (wire b jsonstr bindata) (push_str (λ i. true) junk sock jsonstr bindata))
        (sym off) (plain-Pushed junk sock jsonstr bindata off v small)
]

-- The test `dime_ringbuffer_write(...) < jsondata_len` compares -1 as a `size_t`, and never sees it.
message_lost :
    (junk : ℕ) (r : Ring) (jsonstr : List ℕ)
    → IsValid r
    → r.len + 12 < r.cap
    → r.cap ≤ r.len + 12 + length jsonstr
    → 3 * (r.len + (22 + length jsonstr)) < 2 ^ 64
    → let (ok, r') = write_message (λ i. false) junk r jsonstr [] in
      (ok ≡ true) × (contents r' ≡ contents r ++ header (length jsonstr) 0)
unfolding write_message write_header write_checked
message_lost junk r jsonstr v fits over small =
    let hdr = header (length jsonstr) 0 in
    let twelve = length-header (length jsonstr) 0 in
    let one = write_fitting false junk r hdr (omega arith) (omega arith) v.small in
    let r₁ = store r hdr in
    let sizes = store-sizes r hdr (omega arith) in
    let two = write_denied junk r₁ jsonstr (omega arith) (omega arith) (omega arith) in
    let three = write_nil junk r₁ in
    (
      ground (arith, one, two, three, twelve),
      ground (arith, one, two, three, twelve, contents-store r hdr v (omega arith)),
    )

-- On a plain connection with a valid outgoing ring, for a message without a binary part: where the
-- header still fits into the ring, but the text behind it does not and no memory is granted,
-- `dime_socket_push_str` reports the whole message as sent, with only the header in the ring. The sizes
-- stay below a third of 2 ^ 64.
pub push_str_loses_text :
    (junk : ℕ) (sock : Socket) (jsonstr : List ℕ)
    → sock.ws_enabled ≡ false
    → IsValid sock.wbuf
    → sock.wbuf.len + 12 < sock.wbuf.cap
    → sock.wbuf.cap ≤ sock.wbuf.len + 12 + length jsonstr
    → 3 * (sock.wbuf.len + (22 + length jsonstr)) < 2 ^ 64
    → let (ret, sock') = push_str (λ i. false) junk sock jsonstr [] in
      (ret ≡ length (frame jsonstr []))
      × (contents sock'.wbuf ≡ contents sock.wbuf ++ header (length jsonstr) 0)
unfolding push_str
push_str_loses_text junk sock jsonstr off v fits over small =
    let m = message_lost junk sock.wbuf jsonstr v fits over small in
    rw (off, m.0)
      (
        omega (
          arith,
          length-header (length jsonstr) 0,
          length-append {0} (header (length jsonstr) 0) (jsonstr ++ []),
          length-append {0} jsonstr [],
        ),
        m.1,
      )
