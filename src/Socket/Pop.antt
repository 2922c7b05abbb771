-- ===== src/Socket/Pop.antt =====
-- `dime_socket_pop` takes one framed message from the incoming ring.
use dime.Base.{
  ℕ, ◌+◌, ◌∷◌, min, length-take_le, length-drop, ◌%◌, ◌≤◌, ◌<◌, ◌^◌, ◌≡◌, refl, sym, ap, ◌∙◌, subst,
  Bool, true, false, some, List, [], ◌++◌, arith, length, length-append, append_assoc, append-nil,
  slice, take, drop, take-append, drop-append, take-append_le, take-append-drop, dec_le,
}
use dime.Ring.{Ring}
use dime.Ring
use dime.Ring.Valid.{IsValid, contents, length-contents}
use dime.Ring.Read.{peek_lem, peek_front, discard_front}
use dime.Socket.State.{Socket}
use dime.Socket.Sending.{header, magic}
use dime.Socket.Receiving.{
  same_bytes, Loaded, loaded, past_end, failed, Popped, message, nothing, overrun, pop_body,
  pop_message, pop,
}
use dime.Socket.Bytes.{from_be, from_be-be32}
use dime.Socket.Push.{frame, length-header}

header_fields :
    (j b : ℕ)
    → j < 2 ^ 32
    → b < 2 ^ 32
    → (same_bytes (slice (header j b) 0 4) magic ≡ true)
      × (from_be (slice (header j b) 4 4) ≡ j)
      × (from_be (slice (header j b) 8 4) ≡ b)
unfolding header same_bytes
header_fields j b hj hb = (refl, from_be-be32 j ∙ small j hj, from_be-be32 b ∙ small b hb)
  where
    small : (n : ℕ) → n < 2 ^ 32 → n % 2 ^ 32 ≡ n
    small n h = omega arith

slice_middle :
    (xs ys zs : List ℕ) (i n : ℕ)
    → length xs ≡ i
    → length ys ≡ n
    → slice (xs ++ (ys ++ zs)) i n ≡ ys
slice_middle xs ys zs i n e f = rw (← e, ← f, drop-append xs (ys ++ zs)) (take-append ys zs)

-- The two parts of a frame stand where `dime_socket_pop` looks for them.
slices :
    (jsonstr bindata : List ℕ)
    → (slice (frame jsonstr bindata) 12 (length jsonstr) ≡ jsonstr)
      × (slice (frame jsonstr bindata) (12 + length jsonstr) (length bindata) ≡ bindata)
slices jsonstr bindata =
    let hdr = header (length jsonstr) (length bindata) in
    let l = length-header (length jsonstr) (length bindata) in
    (
      slice_middle hdr jsonstr bindata 12 (length jsonstr) l refl,
      ap (λ k. slice k (12 + length jsonstr) (length bindata)) (regroup hdr)
          ∙ slice_middle (hdr ++ jsonstr) bindata [] (12 + length jsonstr) (length bindata)
              (omega (arith, length-append {0} hdr jsonstr, l)) refl,
    )
  where
    regroup : (hdr : List ℕ) → hdr ++ (jsonstr ++ bindata) ≡ (hdr ++ jsonstr) ++ (bindata ++ [])
    regroup hdr = simp (append-nil, append_assoc)

pub length-frame :
    (jsonstr bindata : List ℕ)
    → length (frame jsonstr bindata) ≡ 12 + length jsonstr + length bindata
length-frame jsonstr bindata =
    let hdr = header (length jsonstr) (length bindata) in
    omega (
      arith,
      length-append {0} hdr (jsonstr ++ bindata),
      length-append {0} jsonstr bindata,
      length-header (length jsonstr) (length bindata),
    )

-- The beginning of a frame that is long enough begins with its header.
split_header :
    (begun missing jsonstr bindata : List ℕ)
    → begun ++ missing ≡ frame jsonstr bindata
    → 12 ≤ length begun
    → begun ≡ header (length jsonstr) (length bindata) ++ drop 12 begun
split_header begun missing jsonstr bindata e long =
    sym (take-append-drop 12 begun)
    ∙ ap (λ k. k ++ drop 12 begun)
        (sym (take-append_le 12 begun missing long)
          ∙ ap (take 12) e
          ∙ subst (λ n. take n (hdr ++ (jsonstr ++ bindata)) ≡ hdr) (length-header _ _)
              (take-append hdr (jsonstr ++ bindata)))
  where
    hdr : List ℕ
    hdr = header (length jsonstr) (length bindata)

module _ {J : Type 0} (json_loadb : List ℕ → ℕ → Loaded J) where
  -- With a header in front the lengths are those of the header.
  pop_message-header :
      (grants : ℕ → Bool) (sock : Socket) (j b : ℕ) (rest : List ℕ)
      → IsValid sock.rbuf
      → contents sock.rbuf ≡ header j b ++ rest
      → j < 2 ^ 32
      → b < 2 ^ 32
      → pop_message json_loadb grants sock ≡ pop_body json_loadb grants sock j b
  unfolding pop_message
  pop_message-header grants sock j b rest v e hj hb =
      let p = peek_front sock.rbuf (header j b) rest v e in
      let f = header_fields j b hj hb in
      let p' : Ring.peek sock.rbuf 12 ≡ (12, header j b) =
        subst (λ k. Ring.peek sock.rbuf k ≡ (k, header j b)) (length-header j b) p in
      rw (p', f.0, f.1, f.2)

  -- What a pop of a message leaves.
  abbrev Pops : Socket → J → List ℕ → ℕ → List ℕ → Popped J → Type 0
  Pops sock x bindata size rest out =
      (sock' : Socket) × (out ≡ message size x bindata sock')
      × IsValid sock'.rbuf
      × (contents sock'.rbuf ≡ rest)
      × (sock' ≡ record sock { rbuf = sock'.rbuf })

  pop_body-message :
      (sock : Socket) (jsonstr bindata rest : List ℕ) (x : J)
      → IsValid sock.rbuf
      → contents sock.rbuf ≡ frame jsonstr bindata ++ rest
      → 12 + length jsonstr + length bindata < 2 ^ 32
      → json_loadb jsonstr (length jsonstr) ≡ loaded x
      → Pops sock x bindata
          (12 + length jsonstr + length bindata)
          rest
          (pop_body json_loadb (λ i. true) sock (length jsonstr) (length bindata))
  unfolding pop_body
  pop_body-message sock jsonstr bindata rest x v e small loads =
      let whole : length (frame jsonstr bindata) ≡ (12 + length jsonstr + length bindata) % 2 ^ 32 =
        omega (
          arith,
          length-append {0} (header (length jsonstr) (length bindata)) (jsonstr ++ bindata),
          length-header (length jsonstr) (length bindata),
          length-append {0} jsonstr bindata,
        ) in
      let p = peek_front sock.rbuf (frame jsonstr bindata) rest v e in
      let p' = subst (λ k. Ring.peek sock.rbuf k ≡ (k, frame jsonstr bindata)) whole p in
      let d = discard_front sock.rbuf (frame jsonstr bindata) rest v e in
      let s = slices jsonstr bindata in
      (
        record sock {
          rbuf = (Ring.discard sock.rbuf ((12 + length jsonstr + length bindata) % 2 ^ 32)).1;
        },
        ground (arith, p', s.0, s.1, loads),
        subst (λ k. IsValid (Ring.discard sock.rbuf k).1) whole d.1,
        subst (λ k. contents (Ring.discard sock.rbuf k).1 ≡ rest) whole d.2,
        refl,
      )

  pub pop-plain :
      (fuel : ℕ) (ws_grants grants : ℕ → Bool) (junk : ℕ) (sock : Socket)
      → sock.ws_enabled ≡ false
      → pop json_loadb fuel ws_grants grants junk sock ≡ some (pop_message json_loadb grants sock)
  unfolding pop
  pop-plain fuel ws_grants grants junk sock off = ground arith

  -- On a plain connection, where memory is granted and the valid incoming ring holds the frame of a
  -- message of less than 2 ^ 32 bytes whose text the JSON library reads, `dime_socket_pop` returns
  -- that message with its size, and leaves what stood behind it.
  pub pop-frame :
      (fuel : ℕ) (ws_grants : ℕ → Bool) (junk : ℕ) (sock : Socket) (jsonstr bindata rest : List ℕ)
      (x : J)
      → sock.ws_enabled ≡ false
      → IsValid sock.rbuf
      → contents sock.rbuf ≡ frame jsonstr bindata ++ rest
      → 12 + length jsonstr + length bindata < 2 ^ 32
      → json_loadb jsonstr (length jsonstr) ≡ loaded x
      → (sock' : Socket) × (pop json_loadb fuel ws_grants (λ i. true) junk sock
          ≡ some (message (12 + length jsonstr + length bindata) x bindata sock'))
        × IsValid sock'.rbuf
        × (contents sock'.rbuf ≡ rest)
        × (sock' ≡ record sock { rbuf = sock'.rbuf })
  pop-frame fuel ws_grants junk sock jsonstr bindata rest x off v e small loads =
      let hdr = header (length jsonstr) (length bindata) in
      let m = pop_body-message sock jsonstr bindata rest x v e small loads in
      let h =
        pop_message-header (λ i. true) sock (length jsonstr) (length bindata)
          ((jsonstr ++ bindata) ++ rest) v (e ∙ append_assoc hdr (jsonstr ++ bindata) rest)
          (omega arith) (omega arith) in
      (m.0, pop-plain fuel ws_grants (λ i. true) junk sock off ∙ ap some (h ∙ m.1), m.2, m.3, m.4)

  -- Where the two lengths in a header make a size of 2 ^ 32 or more, that size wraps, and a buffer that
  -- is filled up to what is left of it is shorter than the text. If what the buffer has of the text is
  -- where some text of that length begins that the JSON library reads, `dime_socket_pop` has the library
  -- read past its buffer. The library, which reads a text from its start on, cannot know before the end
  -- of such a text that it is one. Memory is granted, and the incoming ring is valid.
  pub pop_message-overrun :
      ((begun more : List ℕ) (x : J)
        → 0 < length more
        → json_loadb (begun ++ more) (length (begun ++ more)) ≡ loaded x
        → json_loadb begun (length (begun ++ more)) ≡ past_end)
      → (sock : Socket) (b : ℕ) (rest begun more : List ℕ) (x : J) → IsValid sock.rbuf
      → 0 < length (begun ++ more)
      → let j = length (begun ++ more) in
        contents sock.rbuf ≡ header j b ++ rest
        → begun ≡ slice (take ((12 + j + b) % 2 ^ 32) (header j b ++ rest)) 12 j
        → j < 2 ^ 32
        → b < 2 ^ 32
        → 2 ^ 32 ≤ 12 + j + b
        → 12 + j + b < 2 ^ 32 + length (header j b ++ rest)
        → json_loadb (begun ++ more) j ≡ loaded x
        → pop_message json_loadb (λ i. true) sock ≡ overrun
  unfolding pop_body
  pop_message-overrun reads_on sock b rest begun more x v some_text e starts hj hb wraps long
        loads =
      let j = length (begun ++ more) in
      let n = (12 + j + b) % 2 ^ 32 in
      let whole : length (contents sock.rbuf) ≡ sock.rbuf.len = length-contents sock.rbuf in
      let got : min n sock.rbuf.len ≡ n = omega (arith, ap length e, whole) in
      let left : 0 < length more = omega (
        arith,
        ap length starts,
        (length-take_le j (drop 12 (take n (header j b ++ rest)))).1,
        length-drop 12 (take n (header j b ++ rest)),
        (length-take_le n (header j b ++ rest)).0,
        length-append {0} begun more,
      ) in
      let past = reads_on begun more x left loads in
      pop_message-header (λ i. true) sock j b rest v e hj hb
      ∙ rw (peek_lem sock.rbuf n v, got, e, ← starts, past) (ground arith)

  pub pop_message-short :
      (sock : Socket)
      → IsValid sock.rbuf
      → sock.rbuf.len < 12
      → pop_message json_loadb (λ i. true) sock ≡ nothing sock
  unfolding pop_message
  pop_message-short sock v h = ground (arith, peek_lem sock.rbuf 12 v)

  pop_body-short :
      (sock : Socket) (jsonstr bindata : List ℕ)
      → IsValid sock.rbuf
      → sock.rbuf.len < 12 + length jsonstr + length bindata
      → 12 + length jsonstr + length bindata < 2 ^ 32
      → pop_body json_loadb (λ i. true) sock (length jsonstr) (length bindata) ≡ nothing sock
  unfolding pop_body
  pop_body-short sock jsonstr bindata v h small =
      ground (arith, peek_lem sock.rbuf ((12 + length jsonstr + length bindata) % 2 ^ 32) v)

  -- While a message has not arrived whole, `dime_socket_pop` returns 0 and changes nothing.
  pub pop_message-partial :
      (sock : Socket) (jsonstr bindata missing : List ℕ)
      → IsValid sock.rbuf
      → contents sock.rbuf ++ missing ≡ frame jsonstr bindata
      → 0 < length missing
      → 12 + length jsonstr + length bindata < 2 ^ 32
      → pop_message json_loadb (λ i. true) sock ≡ nothing sock
  pop_message-partial sock jsonstr bindata missing v e some_missing small =
      elim (dec_le 12 (length (contents sock.rbuf))) [
        | yes long ↦
            let rest = drop 12 (contents sock.rbuf) in
            let starts = split_header (contents sock.rbuf) missing jsonstr bindata e long in
            pop_message-header (λ i. true) sock (length jsonstr) (length bindata) rest v starts
              (omega arith) (omega arith)
            ∙ pop_body-short sock jsonstr bindata v (omega (arith, total)) small
        | no short ↦ pop_message-short sock v (omega (arith, length-contents sock.rbuf))
      ]
    where
      total : sock.rbuf.len + length missing ≡ 12 + length jsonstr + length bindata
      total = omega (
        arith,
        ap length e,
        length-append {0} (contents sock.rbuf) missing,
        length-contents sock.rbuf,
        length-frame jsonstr bindata,
      )

  -- What does not begin with "DiME" is no message.
  pub pop_message-no_magic :
      (sock : Socket) (a b c d : ℕ) (rest : List ℕ)
      → IsValid sock.rbuf
      → contents sock.rbuf ≡ a ∷ b ∷ c ∷ d ∷ rest
      → 8 ≤ length rest
      → same_bytes (a ∷ b ∷ c ∷ d ∷ []) magic ≡ false
      → pop_message json_loadb (λ i. true) sock ≡ failed sock
  unfolding pop_message
  pop_message-no_magic sock a b c d rest v e long bad =
      let n : min 12 sock.rbuf.len ≡ 12 = omega (arith, ap length e, length-contents sock.rbuf) in
      rw (peek_lem sock.rbuf 12 v, n, e, bad) refl
