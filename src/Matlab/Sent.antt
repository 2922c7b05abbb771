-- ===== src/Matlab/Sent.antt =====
-- The loop of client/matlab/sunsend.c.
use dime.Base.{
  ℕ, ◌-◌, ◌≤◌, ◌<◌, ◌≡◌, refl, ap, sym, ◌∙◌, Option, some, List, [], ◌∷◌, ◌++◌, arith, length, take,
  drop, length-drop, take-append-drop, subst, map,
}
use dime.Matlab.{all_sent, and_sent, send_all}

abbrev pub joined : List (List ℕ) → List ℕ
joined [] = []
joined (part ∷ parts) = part ++ joined parts

-- How many of `n` bytes the calls of `send` take: one or more each, and no more than are left.
abbrev pub Taken : ℕ → List ℕ → Type 0
Taken n [] = n ≡ 0
Taken n (m ∷ ms) = (0 < m) × (m ≤ n) × Taken (n - m) ms

-- The bytes that the calls take in turn.
pub cut : List ℕ → List ℕ → List (List ℕ)
cut [] bytes = []
cut (m ∷ ms) bytes = take m bytes ∷ cut ms (drop m bytes)

-- Where `send` takes one byte or more in each call, until there are none left, the loop of `sunsend`
-- ends, has sent what each call took, and that is all of the bytes, once and in their order.
pub send_all_lem :
    (ms : List ℕ) (later : List (Option ℕ)) (bytes : List ℕ)
    → Taken (length bytes) ms
    → (send_all (map some ms ++ later) bytes ≡ all_sent (cut ms bytes))
      × (joined (cut ms bytes) ≡ bytes)
unfolding send_all and_sent cut
send_all_lem [] later [] t = (refl, refl)
send_all_lem [] later (b ∷ bs) t = absurd (omega (arith, t))
send_all_lem (m ∷ ms) later [] (positive, fits, t) = absurd (omega arith)
send_all_lem (m ∷ ms) later (b ∷ bs) (positive, fits, t) =
    let bytes = b ∷ bs in
    let (sent, whole) =
      send_all_lem ms later (drop m bytes)
        (subst (λ n. Taken n ms) (sym (length-drop m bytes)) t) in
    (
      ap (and_sent (take m bytes)) sent,
      ap (λ cs. take m bytes ++ cs) whole ∙ take-append-drop m bytes,
    )
