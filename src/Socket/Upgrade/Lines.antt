-- ===== src/Socket/Upgrade/Lines.antt =====
-- The lines of a request, and where its first blank line is.
use dime.Base.{
  ℕ, zero, suc, ◌<◌, ◌≡◌, refl, ap, ◌∙◌, true, false, List, [], ◌∷◌, ◌++◌, arith, length, take,
  ◌==◌,
}
use dime.Socket.Upgrade.{blank_line}
use dime.Socket.Upgrade.Http.{c_string, starts_with, contains, add_line, parts, lines}

-- A byte of a line.
abbrev pub Inner : ℕ → Type 0
Inner c = (c == 13 ≡ false) × (c == 10 ≡ false) × (c == 0 ≡ false)

abbrev pub AllInner : List ℕ → Type 0
AllInner [] = Unit {0}
AllInner (c ∷ cs) = Inner c × AllInner cs

-- A line that is not empty.
abbrev pub IsLine : List ℕ → Type 0
IsLine [] = ⊥
IsLine (c ∷ cs) = Inner c × AllInner cs

abbrev pub AllLines : List (List ℕ) → Type 0
AllLines [] = Unit {0}
AllLines (l ∷ ls) = IsLine l × AllLines ls

-- Lines with their ends, and a blank line.
abbrev pub ended_lines : List (List ℕ) → List ℕ
ended_lines [] = 13 ∷ 10 ∷ []
ended_lines (l ∷ ls) = l ++ (13 ∷ 10 ∷ ended_lines ls)

-- The blank line does not begin in a line.
contains-Inner :
    (c : ℕ) (cs : List ℕ) → Inner c → contains blank_line (c ∷ cs) ≡ contains blank_line cs
unfolding contains
contains-Inner c cs i = ground arith

-- Where what follows a line's end begins with no line's end, or is cut off.
after_end :
    (cs : List ℕ)
    → starts_with (13 ∷ 10 ∷ []) cs ≡ false
    → contains blank_line cs ≡ false
    → contains blank_line (13 ∷ 10 ∷ cs) ≡ false
unfolding contains
after_end cs starts h = ground arith

line_starts :
    (k : ℕ) (l rest : List ℕ) → IsLine l → starts_with (13 ∷ 10 ∷ []) (take k (l ++ rest)) ≡ false
line_starts k [] rest i = absurd i
line_starts zero (c ∷ l) rest i = refl
line_starts (suc k) (c ∷ l) rest i = ground arith

pub IsLine-AllInner : (l : List ℕ) → IsLine l → AllInner l
IsLine-AllInner [] i = absurd i
IsLine-AllInner (c ∷ l) i = i

-- In front of its end a request has no blank line.
pub no_blank :
    (k : ℕ) (l : List ℕ) (ls : List (List ℕ))
    → AllInner l
    → AllLines ls
    → k < length (l ++ (13 ∷ 10 ∷ ended_lines ls))
    → contains blank_line (take k (l ++ (13 ∷ 10 ∷ ended_lines ls))) ≡ false
unfolding contains
no_blank zero l ls i is k_in = refl
no_blank (suc k) (c ∷ l) ls (i, is) more k_in =
    contains-Inner c (take k (l ++ (13 ∷ 10 ∷ ended_lines ls))) i
    ∙ no_blank k l ls is more (omega (arith, k_in))
no_blank (suc zero) [] ls i is k_in = refl
no_blank (suc (suc zero)) [] ls i is k_in = refl
no_blank (suc (suc (suc zero))) [] [] i is k_in = refl
no_blank (suc (suc (suc (suc k)))) [] [] i is k_in = absurd (omega (arith, k_in))
no_blank (suc (suc (suc k))) [] (l ∷ ls) i (is, more) k_in =
    after_end (take (suc k) (ended_lines (l ∷ ls)))
      (line_starts (suc k) l (13 ∷ 10 ∷ ended_lines ls) is)
      (no_blank (suc k) l ls (IsLine-AllInner l is) more (omega (arith, k_in)))

contains-behind :
    (needle xs ys : List ℕ) → contains needle ys ≡ true → contains needle (xs ++ ys) ≡ true
unfolding contains
contains-behind needle [] ys h = h
contains-behind needle (x ∷ xs) ys h = ground (arith, contains-behind needle xs ys h)

-- At its end it has one.
pub blank_at_end :
    (l : List ℕ) (ls : List (List ℕ)) → contains blank_line (l ++ (13 ∷ 10 ∷ ended_lines ls)) ≡ true
unfolding contains
blank_at_end l [] = contains-behind blank_line l blank_line refl
blank_at_end l (l' ∷ ls) =
    contains-behind blank_line l (13 ∷ 10 ∷ ended_lines (l' ∷ ls))
      (contains-behind blank_line (13 ∷ 10 ∷ []) (ended_lines (l' ∷ ls)) (blank_at_end l' ls))

parts-line :
    (l : List ℕ) (rest : List ℕ) → AllInner l → parts (l ++ (13 ∷ 10 ∷ rest)) ≡ (l, lines rest)
unfolding parts lines add_line
parts-line [] rest i = refl
parts-line (c ∷ l) rest (i, is) = ground (arith, parts-line l rest is)

-- The lines of a request are those that it was made of.
pub lines-ended_lines : (ls : List (List ℕ)) → AllLines ls → lines (ended_lines ls) ≡ ls
unfolding lines parts add_line
lines-ended_lines [] i = refl
lines-ended_lines ([] ∷ ls) (i, is) = absurd i
lines-ended_lines ((c ∷ l) ∷ ls) (i, is) =
    let e = parts-line (c ∷ l) (ended_lines ls) i in
    ap (λ p. add_line p.0 p.1) e ∙ ap (λ k. (c ∷ l) ∷ k) (lines-ended_lines ls is)

-- It has no zero.
c_string-line : (l rest : List ℕ) → AllInner l → c_string (l ++ rest) ≡ l ++ c_string rest
unfolding c_string
c_string-line [] rest i = refl
c_string-line (c ∷ l) rest (i, is) = ground (arith, c_string-line l rest is)

pub c_string-ended_lines :
    (ls : List (List ℕ)) → AllLines ls → c_string (ended_lines ls) ≡ ended_lines ls
unfolding c_string
c_string-ended_lines [] i = refl
c_string-ended_lines (l ∷ ls) (i, is) =
    c_string-line l (13 ∷ 10 ∷ ended_lines ls) (IsLine-AllInner l i)
    ∙ ap (λ k. l ++ (13 ∷ 10 ∷ k)) (c_string-ended_lines ls is)

pub c_string-take : (k : ℕ) (cs : List ℕ) → c_string cs ≡ cs → c_string (take k cs) ≡ take k cs
unfolding c_string
c_string-take zero cs h = refl
c_string-take (suc k) [] h = refl
c_string-take (suc k) (c ∷ cs) h = ground (arith, h, c_string-take k cs)
