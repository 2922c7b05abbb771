-- ===== src/Request/Serve.antt =====
-- The loop over a client's requests, by what each handler keeps.
use dime.Base.{suc, ◌+◌, ◌<◌, ◌≡◌, arith, length, subst, ℕ, List, [], ◌∷◌}
use dime.World.{pure, World, Outcome, ok, failed, aborted}
use dime.World.Logic.{Post, Leads, then-Leads}
use dime.World.After.{End, Ends, Holds, then-Ends, pure-Ends}
use dime.Request.{Request, dispatch, settled, handle, serve}

settled-End :
    (P E : World → Type 0) (out : Outcome (Unit {0}) × World) → End P P out → End P E (settled out)
unfolding settled
settled-End P E (ok a, w) p = p
settled-End P E (failed, w) p = p
settled-End P E (aborted, w) p = tt

pub serve-Ends :
    {P E : World → Type 0} (fd : ℕ) (requests : List Request)
    → ((request : Request) → Holds P (dispatch fd request))
    → Ends P P E (serve fd requests)
unfolding serve handle
serve-Ends fd [] h = pure-Ends tt
serve-Ends {P = P} {E} fd (request ∷ requests) h =
    then-Ends
      (record { out = λ w p. settled-End P E (dispatch fd request w) ((h request).out w p) })
      (serve-Ends fd requests h)

settled-Post :
    (P E : World → Type 0) (out : Outcome (Unit {0}) × World)
    → Post P P out
    → Post P E (settled out)
unfolding settled
settled-Post P E (ok a, w) p = p
settled-Post P E (failed, w) p = p
settled-Post P E (aborted, w) p = absurd p

no_more : (n : ℕ) → n ≡ n + 0
no_more n = omega arith

one_more : (n k : ℕ) → suc n + k ≡ n + suc k
one_more n k = omega arith

-- What holds of each of some requests.
abbrev pub EachIs : (Request → Type 0) → List Request → Type 0
EachIs Good [] = Unit {0}
EachIs Good (request ∷ requests) = Good request × EachIs Good requests

-- Requests each of which takes one of a number of steps.
pub serve-Leads :
    {P : ℕ → World → Type 0} {E : World → Type 0} (Good : Request → Type 0) (fd n : ℕ)
    (requests : List Request)
    → EachIs Good requests
    → ((m : ℕ) (request : Request)
        → m < n + length requests
        → Good request
        → Leads (P m) (P (suc m)) (P (suc m)) (dispatch fd request))
    → Leads (P n) (P (n + length requests)) E (serve fd requests)
unfolding serve handle pure
serve-Leads {P = P} Good fd n [] good h = record { out = λ w p. subst (λ k. P k w) (no_more n) p }
serve-Leads {P = P} {E} Good fd n (request ∷ requests) (first, later) h =
    then-Leads
      (record {
        out = λ w p.
            settled-Post (P (suc n)) E (dispatch fd request w)
              ((h n request (omega arith) first).out w p);
      })
      (subst (λ k. Leads (P (suc n)) (P k) E (serve fd requests)) (one_more n (length requests))
        (serve-Leads Good fd (suc n) requests later (λ m r few. h m r (omega arith))))
