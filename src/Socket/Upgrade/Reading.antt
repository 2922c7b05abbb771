-- ===== src/Socket/Upgrade/Reading.antt =====
-- The loop of `dime_socket_init_ws` over `recv`.
use dime.Base.{
  ℕ, ◌+◌, ◌-◌, ◌*◌, ◌≤◌, ◌<◌, ◌^◌, ◌≡◌, refl, ap, sym, ◌∙◌, Bool, true, false, Option, some, List,
  [], ◌∷◌, ◌++◌, arith, length, length-append, take, take-append, append_assoc, append-nil, leb,
  if◌then◌else◌, map, Bool-cases, inl, inr, dec_lt, subst,
}
use dime.Socket.Upgrade.{received, grown, receive, blank_line}
use dime.Socket.Upgrade.Http.{c_string, contains}

-- The buffer's size when it holds `len` bytes.
abbrev pub next_cap : ℕ → ℕ → ℕ
next_cap cap len = if leb cap len then grown cap else cap

abbrev pub joined : List (List ℕ) → List ℕ
joined [] = []
joined (chunk ∷ chunks) = chunk ++ joined chunks

-- What `recv` returns, call by call: some bytes, no more than are asked for.
abbrev pub Asked : ℕ → ℕ → List (List ℕ) → Type 0
Asked cap len [] = Unit {0}
Asked cap len (chunk ∷ chunks) =
    (0 < length chunk)
    × (length chunk ≤ cap - len)
    × Asked (next_cap cap (len + length chunk)) (len + length chunk) chunks

-- The grants behind one call.
later_grants : ℕ → ℕ → (ℕ → Bool) → ℕ → Bool
later_grants cap len grants = if leb cap len then (λ i. grants (i + 1)) else grants

still_granted :
    (cap len : ℕ) (grants : ℕ → Bool)
    → ((i : ℕ) → grants i ≡ true)
    → (i : ℕ) → later_grants cap len grants i ≡ true
unfolding later_grants
still_granted cap len grants g i = elim (Bool-cases (leb cap len)) [
  | inl is_full ↦ rw is_full (g (i + 1))
  | inr room ↦ rw room (g i)
]

-- A buffer that is large enough, and not much larger.
abbrev pub Roomy : ℕ → ℕ → Type 0
Roomy cap len = (len < cap) × (500 ≤ cap) × (cap ≤ 500 + 2 * len) × (len < 2 ^ 60)

still-Roomy :
    (cap len n : ℕ)
    → Roomy cap len
    → n ≤ cap - len
    → len + n < 2 ^ 60
    → Roomy (next_cap cap (len + n)) (len + n)
unfolding grown
still-Roomy cap len n r fits small = ground arith

module _ (grants : ℕ → Bool) (cap : ℕ) (hdr chunk : List ℕ) (later : List (Option (List ℕ))) where
  one_received :
      ((i : ℕ) → grants i ≡ true)
      → length chunk ≤ cap - length hdr
      → let len = length (hdr ++ chunk) in
        Roomy (next_cap cap len) len
        → receive grants cap hdr (some chunk ∷ later) ≡ (
            if contains blank_line (c_string (hdr ++ chunk))
            then received (hdr ++ chunk)
            else receive (later_grants cap len grants) (next_cap cap len) (hdr ++ chunk) later)
  unfolding receive later_grants
  one_received g fits r = elim (Bool-cases (leb cap (length (hdr ++ chunk)))) [
    | inl is_full ↦ rw (is_full, g 0) (ground (arith, rw is_full at r))
    | inr room ↦ rw room (ground (arith, rw room at r))
  ]

length_zero : (xs : List ℕ) → length xs ≡ 0 → xs ≡ []
length_zero [] h = refl
length_zero (x ∷ xs) h = absurd (omega (arith, h))

-- A request that arrives in pieces is received once it is there: its blank line is at its end, and not
-- before.
pub receive_lem :
    (grants : ℕ → Bool) (cap : ℕ) (hdr : List ℕ) (chunks : List (List ℕ)) (text : List ℕ)
    (later : List (Option (List ℕ)))
    → ((i : ℕ) → grants i ≡ true)
    → Roomy cap (length hdr)
    → Asked cap (length hdr) chunks
    → hdr ++ joined chunks ≡ text
    → length hdr < length text
    → length text < 2 ^ 60
    → contains blank_line (c_string text) ≡ true
    → ((k : ℕ) → k < length text → contains blank_line (c_string (take k text)) ≡ false)
    → receive grants cap hdr (map some chunks ++ later) ≡ received text
receive_lem grants cap hdr [] text later g r asked e short small here before =
    absurd (omega (arith, short, ap length e, length-append hdr (joined [])))
receive_lem grants cap hdr (chunk ∷ chunks) text later g r (some_bytes, fits, asked) e short small
      here before =
    let len = length (hdr ++ chunk) in
    let split : len ≡ length hdr + length chunk = length-append hdr chunk in
    let e' : (hdr ++ chunk) ++ joined chunks ≡ text = append_assoc hdr chunk (joined chunks) ∙ e in
    let total : len + length (joined chunks) ≡ length text =
      sym (length-append (hdr ++ chunk) (joined chunks)) ∙ ap length e' in
    let r' : Roomy (next_cap cap len) len =
      rw split (still-Roomy cap (length hdr) (length chunk) r fits (omega (arith, total, split))) in
    one_received grants cap hdr chunk (map some chunks ++ later) g fits r'
    ∙ (elim (dec_lt len (length text)) [
      | yes more ↦
          let so_far : take len text ≡ hdr ++ chunk =
            ap (take len) (sym e') ∙ take-append (hdr ++ chunk) (joined chunks) in
          rw (ap (λ cs. contains blank_line (c_string cs)) (sym so_far) ∙ before len more) (
            receive_lem (later_grants cap len grants) (next_cap cap len) (hdr ++ chunk) chunks text
              later (still_granted cap len grants g) r'
              (subst (λ n. Asked (next_cap cap n) n chunks) (sym split) asked) e' more small here
              before)
      | no all ↦
          let none_left = length_zero (joined chunks) (omega (arith, total)) in
          let whole : hdr ++ chunk ≡ text =
            sym (append-nil (hdr ++ chunk))
            ∙ ap (λ cs. (hdr ++ chunk) ++ cs) (sym none_left)
            ∙ e' in
          rw (ap (λ cs. contains blank_line (c_string cs)) whole ∙ here) (ap received whole)
    ])
