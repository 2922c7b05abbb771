-- ===== src/Socket/Upgrade/Closed.antt =====
-- Requests that `dime_socket_init_ws` does not come to an end with.
use dime.Base.{
  ℕ, zero, suc, ◌+◌, ◌<◌, ◌≡◌, refl, ap, Bool, true, false, Option, none, some, List, [], ◌∷◌, ◌++◌,
  arith, length, leb, replicate, append-nil, Bool-cases, inl, inr,
}
use dime.Socket.State.{Socket}
use dime.Socket.Upgrade.{
  crashed, reading_on, received, more_to_come, grown, receive, blank_line, WsCalls, init_ws,
}
use dime.Socket.Upgrade.Http.{c_string, contains, lines, parts, add_line, is_line_end}

-- `recv` returns 0 again and again.
only_closed :
    (n : ℕ) (grants : ℕ → Bool) (cap : ℕ) (hdr : List ℕ)
    → length hdr < cap
    → contains blank_line (c_string hdr) ≡ false
    → receive grants cap hdr (replicate n (some [])) ≡ more_to_come
unfolding receive
only_closed zero grants cap hdr room open_end = refl
only_closed (suc n) grants cap hdr room open_end =
    let space : leb cap (length hdr) ≡ false = ground arith in
    rw (append-nil hdr, space)
      (ground (arith, open_end, only_closed n grants cap hdr room open_end))

closed :
    (n : ℕ) (grants : ℕ → Bool) (cap : ℕ) (hdr : List ℕ) (so_far : List (Option (List ℕ)))
    → length hdr < cap
    → contains blank_line (c_string hdr) ≡ false
    → receive grants cap hdr so_far ≡ more_to_come
    → receive grants cap hdr (so_far ++ replicate n (some [])) ≡ more_to_come
unfolding receive
closed n grants cap hdr [] room open_end h = only_closed n grants cap hdr room open_end
closed n grants cap hdr (none ∷ later) room open_end h = cc h
closed n grants cap hdr (some chunk ∷ later) room open_end h =
    elim (Bool-cases (leb cap (length (hdr ++ chunk)))) [
      | inl is_full ↦ rw is_full (
          ground (
            arith,
            rw is_full at h,
            closed n (λ i. grants (i + 1)) (grown cap) (hdr ++ chunk) later,
          ))
      | inr space ↦
          rw space (ground (arith, rw space at h, closed n grants cap (hdr ++ chunk) later))
    ]

-- Where a peer closes its connection before its request is complete, the handshake never ends, however
-- often `recv` returns 0, and the server stops for all clients; it means to end where `recv` fails.
pub init_ws_closed :
    (encoded_sha1 : List ℕ → List ℕ) (n : ℕ) (calls : WsCalls) (sock : Socket)
    → calls.blocking ≡ true
    → calls.memory ≡ true
    → receive calls.grants 500 [] calls.chunks ≡ more_to_come
    → init_ws encoded_sha1 (record calls { chunks = calls.chunks ++ replicate n (some []) }) sock
      ≡ reading_on
unfolding init_ws contains c_string
init_ws_closed encoded_sha1 n calls sock b m h =
    rw (b, m, closed n calls.grants 500 [] calls.chunks (omega arith) refl h) refl

-- A text of line ends.
abbrev pub AllEnds : List ℕ → Type 0
AllEnds [] = Unit {0}
AllEnds (c ∷ cs) = (is_line_end c ≡ true) × AllEnds cs

no_lines : (cs : List ℕ) → AllEnds cs → parts cs ≡ ([], [])
unfolding parts add_line
no_lines [] e = refl
no_lines (c ∷ cs) (e, es) = ground (arith, no_lines cs es)

c_string-ends : (cs : List ℕ) → AllEnds cs → c_string cs ≡ cs
unfolding c_string
c_string-ends [] e = refl
c_string-ends (c ∷ cs) (e, es) = ground (arith, c_string-ends cs es)

-- A request of fewer than 500 bytes that are nothing but line ends, with a blank line, crashes the
-- server: there is no first line for `sscanf` to read.
pub init_ws_no_line :
    (encoded_sha1 : List ℕ → List ℕ) (calls : WsCalls) (sock : Socket) (text : List ℕ)
    (later : List (Option (List ℕ)))
    → calls.blocking ≡ true
    → calls.memory ≡ true
    → calls.chunks ≡ some text ∷ later
    → AllEnds text
    → contains blank_line text ≡ true
    → length text < 500
    → init_ws encoded_sha1 calls sock ≡ crashed
unfolding init_ws lines add_line receive
init_ws_no_line encoded_sha1 calls sock text later b m arrives ends blank small =
    let whole = c_string-ends text ends in
    let got : receive calls.grants 500 [] (some text ∷ later) ≡ received text =
      ground (arith, ap (contains blank_line) whole) in
    rw (b, m, arrives, got) (rw (whole, no_lines text ends) refl)
