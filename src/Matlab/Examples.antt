-- ===== src/Matlab/Examples.antt =====
-- Three bytes that are sent in two calls.
use dime.Base.{ℕ, ◌≡◌, some, List, [], ◌∷◌, ◌++◌, arith, map}
use dime.Matlab.{all_sent, send_all}
use dime.Matlab.Sent.{joined, cut, send_all_lem}

abbrev three : List ℕ
three = 1 ∷ 2 ∷ 3 ∷ []

send_all_example :
    (send_all (map some (2 ∷ 1 ∷ []) ++ []) three ≡ all_sent (cut (2 ∷ 1 ∷ []) three))
    × (joined (cut (2 ∷ 1 ∷ []) three) ≡ three)
send_all_example = send_all_lem (2 ∷ 1 ∷ []) [] three (omega arith)
