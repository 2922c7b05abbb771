-- ===== src/World/Logic.antt =====
-- Reasoning about handlers by what holds before and after: rules for the steps of `World`.
use dime.Base.{Bool, true, false, if◌then◌else◌}
use dime.World.{World, Outcome, ok, failed, aborted, M, carry_on, pure, ◌>>=◌, ◌>>◌}

-- `Q` at an end with 0, `E` at one with -1, and no failed assertion.
abbrev pub Post : {A : Type 0} → (World → Type 0) → (World → Type 0) → Outcome A × World → Type 0
Post Q E (ok a, w) = Q w
Post Q E (failed, w) = E w
Post Q E (aborted, w) = ⊥

-- From a world with `P` the handler ends in one with `Q`, or returns -1 in one with `E`.
pub record Leads {A : Type 0} (P Q E : World → Type 0) (m : M A) : Type 0 where
  pub out : (w : World) → P w → Post Q E (m w)

-- It keeps `P` in both cases.
abbrev pub Keeps : {A : Type 0} → (World → Type 0) → M A → Type 0
Keeps P m = Leads P P P m

bind-Post :
    {A B : Type 0} (Q R E : World → Type 0) (f : A → M B) (out : Outcome A × World)
    → Post Q E out
    → ((a : A) → Leads Q R E (f a))
    → Post R E (carry_on f out)
bind-Post Q R E f (ok a, w) h k = (k a).out w h
bind-Post Q R E f (failed, w) h k = h
bind-Post Q R E f (aborted, w) h k = absurd h

pub bind-Leads :
    {A B : Type 0} {P Q R E : World → Type 0} {m : M A} {f : A → M B}
    → Leads P Q E m
    → ((a : A) → Leads Q R E (f a))
    → Leads P R E (m >>= f)
unfolding ◌>>=◌
bind-Leads {Q = Q} {R} {E} {m} {f} h k = record {
  out = λ w p. bind-Post Q R E f (m w) (h.out w p) k;
}

pub then-Leads :
    {A B : Type 0} {P Q R E : World → Type 0} {m : M A} {n : M B}
    → Leads P Q E m
    → Leads Q R E n
    → Leads P R E (m >> n)
unfolding ◌>>◌
then-Leads h k = bind-Leads h (λ _. k)

pub pure-Leads : {A : Type 0} {P E : World → Type 0} (a : A) → Leads P P E (pure a)
unfolding pure
pure-Leads a = record { out = λ w p. p }

-- A step that only looks.
pub look-Leads :
    {A : Type 0} {P E : World → Type 0} (f : World → A) → Leads P P E (λ w. (ok (f w), w))
look-Leads f = record { out = λ w p. p }

pub if-Leads :
    {A : Type 0} {P Q E : World → Type 0} (b : Bool) {m n : M A}
    → Leads P Q E m
    → Leads P Q E n
    → Leads P Q E (if b then m else n)
if-Leads true h k = h
if-Leads false h k = k

pub change-Post :
    {A : Type 0} (Q Q' E E' : World → Type 0) (out : Outcome A × World)
    → ((w : World) → Q w → Q' w)
    → ((w : World) → E w → E' w)
    → Post Q E out
    → Post Q' E' out
change-Post Q Q' E E' (ok a, w) q e p = q w p
change-Post Q Q' E E' (failed, w) q e p = e w p
change-Post Q Q' E E' (aborted, w) q e p = p

weaken-Post :
    {A : Type 0} (Q E F : World → Type 0) (out : Outcome A × World)
    → ((w : World) → E w → F w)
    → Post Q E out
    → Post Q F out
weaken-Post Q E F (ok a, w) h p = p
weaken-Post Q E F (failed, w) h p = h w p
weaken-Post Q E F (aborted, w) h p = p

pub weaken-Leads :
    {A : Type 0} {P Q E F : World → Type 0} {m : M A}
    → ((w : World) → E w → F w)
    → Leads P Q E m
    → Leads P Q F m
weaken-Leads {Q = Q} {E} {F} {m} h k = record { out = λ w p. weaken-Post Q E F (m w) h (k.out w p) }
