-- ===== src/World/Gives.antt =====
-- Reasoning about handlers whose result says what holds after them.
use dime.Base.{Bool, true, false, if◌then◌else◌}
use dime.World.{World, Outcome, ok, failed, aborted, M, carry_on, pure, ◌>>=◌, ◌>>◌}
use dime.World.Logic.{Post, Leads}

-- `Q a` at an end with the result `a`, `E` at one with -1, and no fault.
abbrev pub Outcomes :
    {A : Type 0} → (A → World → Type 0) → (World → Type 0) → Outcome A × World → Type 0
Outcomes Q E (ok a, w) = Q a w
Outcomes Q E (failed, w) = E w
Outcomes Q E (aborted, w) = ⊥

pub record Gives {A : Type 0} (P : World → Type 0) (Q : A → World → Type 0) (E : World → Type 0)
    (m : M A) : Type 0 where
  pub out : (w : World) → P w → Outcomes Q E (m w)

carry_on-Outcomes :
    {A B : Type 0} (Q : A → World → Type 0) (R : B → World → Type 0) (E : World → Type 0)
    (f : A → M B) (out : Outcome A × World)
    → Outcomes Q E out
    → ((a : A) → Gives (Q a) R E (f a))
    → Outcomes R E (carry_on f out)
carry_on-Outcomes Q R E f (ok a, w) h k = (k a).out w h
carry_on-Outcomes Q R E f (failed, w) h k = h
carry_on-Outcomes Q R E f (aborted, w) h k = absurd h

pub bind-Gives :
    {A B : Type 0} {P E : World → Type 0} {Q : A → World → Type 0} {R : B → World → Type 0}
    {m : M A} {f : A → M B}
    → Gives P Q E m
    → ((a : A) → Gives (Q a) R E (f a))
    → Gives P R E (m >>= f)
unfolding ◌>>=◌
bind-Gives {E = E} {Q} {R} {m} {f} h k = record {
  out = λ w p. carry_on-Outcomes Q R E f (m w) (h.out w p) k;
}

Post-Outcomes :
    {A : Type 0} (Q E : World → Type 0) (out : Outcome A × World)
    → Post Q E out
    → Outcomes (λ a. Q) E out
Post-Outcomes Q E (ok a, w) p = p
Post-Outcomes Q E (failed, w) p = p
Post-Outcomes Q E (aborted, w) p = p

pub Leads-Gives :
    {A : Type 0} {P Q E : World → Type 0} {m : M A} → Leads P Q E m → Gives P (λ a. Q) E m
Leads-Gives {Q = Q} {E} {m} h = record { out = λ w p. Post-Outcomes Q E (m w) (h.out w p) }

Outcomes-Post :
    {A : Type 0} (Q E : World → Type 0) (out : Outcome A × World)
    → Outcomes (λ a. Q) E out
    → Post Q E out
Outcomes-Post Q E (ok a, w) p = p
Outcomes-Post Q E (failed, w) p = p
Outcomes-Post Q E (aborted, w) p = p

pub Gives-Leads :
    {A : Type 0} {P Q E : World → Type 0} {m : M A} → Gives P (λ a. Q) E m → Leads P Q E m
Gives-Leads {Q = Q} {E} {m} h = record { out = λ w p. Outcomes-Post Q E (m w) (h.out w p) }

pub pure-Gives :
    {A : Type 0} {P E : World → Type 0} {Q : A → World → Type 0} (a : A)
    → ((w : World) → P w → Q a w)
    → Gives P Q E (pure a)
unfolding pure
pure-Gives a h = record { out = h }

pub if-Gives :
    {A : Type 0} {P E : World → Type 0} {Q : A → World → Type 0} (b : Bool) {m n : M A}
    → Gives P Q E m
    → Gives P Q E n
    → Gives P Q E (if b then m else n)
if-Gives true h k = h
if-Gives false h k = k

pub then-Gives :
    {A B : Type 0} {P Q E : World → Type 0} {R : B → World → Type 0} {m : M A} {n : M B}
    → Leads P Q E m
    → Gives Q R E n
    → Gives P R E (m >> n)
unfolding ◌>>◌
then-Gives h k = bind-Gives (Leads-Gives h) (λ _. k)
