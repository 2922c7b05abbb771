-- ===== src/World/Yields.antt =====
-- Reasoning about handlers that may meet freed memory, and whose result says what holds after them.
use dime.Base.{Bool, true, false, if◌then◌else◌}
use dime.World.{World, Outcome, ok, failed, aborted, M, carry_on, pure, ◌>>=◌, ◌>>◌, abort}
use dime.World.After.{End, Ends}

-- `Q a` at an end with the result `a`, `E` at one with -1.
abbrev pub EndsWith :
    {A : Type 0} → (A → World → Type 0) → (World → Type 0) → Outcome A × World → Type 0
EndsWith Q E (ok a, w) = Q a w
EndsWith Q E (failed, w) = E w
EndsWith Q E (aborted, w) = Unit {0}

-- From a world with `P` the handler, unless it meets a fault, ends so.
pub record Yields {A : Type 0} (P : World → Type 0) (Q : A → World → Type 0) (E : World → Type 0)
    (m : M A) : Type 0 where
  pub out : (w : World) → P w → EndsWith Q E (m w)

carry_on-EndsWith :
    {A B : Type 0} (Q : A → World → Type 0) (R : B → World → Type 0) (E : World → Type 0)
    (f : A → M B) (out : Outcome A × World)
    → EndsWith Q E out
    → ((a : A) → Yields (Q a) R E (f a))
    → EndsWith R E (carry_on f out)
carry_on-EndsWith Q R E f (ok a, w) h k = (k a).out w h
carry_on-EndsWith Q R E f (failed, w) h k = h
carry_on-EndsWith Q R E f (aborted, w) h k = tt

module _ {A B : Type 0} {P E : World → Type 0} where
  pub bind-Yields :
      {Q : A → World → Type 0} {R : B → World → Type 0} {m : M A} {f : A → M B}
      → Yields P Q E m
      → ((a : A) → Yields (Q a) R E (f a))
      → Yields P R E (m >>= f)
  unfolding ◌>>=◌
  bind-Yields {Q} {R} {m} {f} h k = record {
    out = λ w p. carry_on-EndsWith Q R E f (m w) (h.out w p) k;
  }

End-EndsWith :
    {A : Type 0} (Q E : World → Type 0) (out : Outcome A × World)
    → End Q E out
    → EndsWith (λ a. Q) E out
End-EndsWith Q E (ok a, w) p = p
End-EndsWith Q E (failed, w) p = p
End-EndsWith Q E (aborted, w) p = p

pub Ends-Yields :
    {A : Type 0} {P Q E : World → Type 0} {m : M A} → Ends P Q E m → Yields P (λ a. Q) E m
Ends-Yields {Q = Q} {E} {m} h = record { out = λ w p. End-EndsWith Q E (m w) (h.out w p) }

-- A step whose result does not matter, and then another.
pub then-Yields :
    {A B : Type 0} {P Q E : World → Type 0} {R : B → World → Type 0} {m : M A} {n : M B}
    → Ends P Q E m
    → Yields Q R E n
    → Yields P R E (m >> n)
unfolding ◌>>◌
then-Yields h k = bind-Yields (Ends-Yields h) (λ _. k)

pub if-Yields :
    {A : Type 0} {P E : World → Type 0} {Q : A → World → Type 0} (b : Bool) {m n : M A}
    → Yields P Q E m
    → Yields P Q E n
    → Yields P Q E (if b then m else n)
if-Yields true h k = h
if-Yields false h k = k

pub pure-Yields :
    {A : Type 0} {P E : World → Type 0} {Q : A → World → Type 0} (a : A)
    → ((w : World) → P w → Q a w)
    → Yields P Q E (pure a)
unfolding pure
pure-Yields a h = record { out = h }

pub abort-Yields :
    {A : Type 0} {P E : World → Type 0} {Q : A → World → Type 0} → Yields P Q E (abort {A = A})
unfolding abort
abort-Yields = record { out = λ w p. tt }
