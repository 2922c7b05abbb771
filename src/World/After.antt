-- ===== src/World/After.antt =====
-- Reasoning about handlers that may meet freed memory: what holds at an end with 0 and at one with -1,
-- while nothing is said of a fault.
use dime.Base.{ℕ, ◌≡◌, Bool, true, false, if◌then◌else◌}
use dime.World.{
  World, Client, Error, Reply, Outcome, ok, failed, aborted, M, carry_on, pure, ◌>>=◌, ◌>>◌, alloc,
  modify_client, push, fail, require, abort, stop,
}
use dime.World.Logic.{Post, Leads, pure-Leads}
use dime.World.Links.{
  Calm, Stable, alloc-Keeps, push-Keeps, require-Keeps, fail-Leads, stop-Leads, set_client-Keeps,
}

-- `Q` at an end with 0, `E` at one with -1.
abbrev pub End : {A : Type 0} → (World → Type 0) → (World → Type 0) → Outcome A × World → Type 0
End Q E (ok a, w) = Q w
End Q E (failed, w) = E w
End Q E (aborted, w) = Unit {0}

-- From a world with `P` the handler, unless it meets a fault, ends so.
pub record Ends {A : Type 0} (P Q E : World → Type 0) (m : M A) : Type 0 where
  pub out : (w : World) → P w → End Q E (m w)

-- It keeps `P` unless it meets a fault.
abbrev pub Holds : {A : Type 0} → (World → Type 0) → M A → Type 0
Holds P m = Ends P P P m

Post-End :
    {A : Type 0} (Q E : World → Type 0) (out : Outcome A × World) → Post Q E out → End Q E out
Post-End Q E (ok a, w) p = p
Post-End Q E (failed, w) p = p
Post-End Q E (aborted, w) p = tt

pub Leads-Ends : {A : Type 0} {P Q E : World → Type 0} {m : M A} → Leads P Q E m → Ends P Q E m
Leads-Ends {Q = Q} {E} {m} k = record { out = λ w p. Post-End Q E (m w) (k.out w p) }

carry_on-End :
    {A B : Type 0} (Q R E : World → Type 0) (f : A → M B) (out : Outcome A × World)
    → End Q E out
    → ((a : A) → Ends Q R E (f a))
    → End R E (carry_on f out)
carry_on-End Q R E f (ok a, w) p k = (k a).out w p
carry_on-End Q R E f (failed, w) p k = p
carry_on-End Q R E f (aborted, w) p k = tt

pub bind-Ends :
    {A B : Type 0} {P Q R E : World → Type 0} {m : M A} {f : A → M B}
    → Ends P Q E m
    → ((a : A) → Ends Q R E (f a))
    → Ends P R E (m >>= f)
unfolding ◌>>=◌
bind-Ends {Q = Q} {R} {E} {m} {f} h k = record {
  out = λ w p. carry_on-End Q R E f (m w) (h.out w p) k;
}

pub then-Ends :
    {A B : Type 0} {P Q R E : World → Type 0} {m : M A} {n : M B}
    → Ends P Q E m
    → Ends Q R E n
    → Ends P R E (m >> n)
unfolding ◌>>◌
then-Ends h k = bind-Ends h (λ _. k)

pub if-Ends :
    {A : Type 0} {P Q E : World → Type 0} (b : Bool) {m n : M A}
    → Ends P Q E m
    → Ends P Q E n
    → Ends P Q E (if b then m else n)
if-Ends true h k = h
if-Ends false h k = k

pub pure-Ends : {A : Type 0} {P E : World → Type 0} (a : A) → Ends P P E (pure a)
pure-Ends a = Leads-Ends (pure-Leads a)

pub abort-Ends : {A : Type 0} {P Q E : World → Type 0} → Ends P Q E (abort {A = A})
unfolding abort
abort-Ends = record { out = λ w p. tt }

-- A step that only looks.
pub look-Ends :
    {A : Type 0} {P E : World → Type 0} (f : World → A) → Ends P P E (λ w. (ok (f w), w))
look-Ends f = record { out = λ w p. p }

-- What two arguments show of one step.
both-End :
    {A : Type 0} (Q Q' E E' : World → Type 0) (out : Outcome A × World)
    → End Q E out
    → End Q' E' out
    → End (λ w. Q w × Q' w) (λ w. E w × E' w) out
both-End Q Q' E E' (ok a, w) p p' = (p, p')
both-End Q Q' E E' (failed, w) p p' = (p, p')
both-End Q Q' E E' (aborted, w) p p' = tt

pub both-Ends :
    {A : Type 0} {P P' Q Q' E E' : World → Type 0} {m : M A}
    → Ends P Q E m
    → Ends P' Q' E' m
    → Ends (λ w. P w × P' w) (λ w. Q w × Q' w) (λ w. E w × E' w) m
both-Ends {Q = Q} {Q'} {E} {E'} {m} h h' = record {
  out = λ w p. both-End Q Q' E E' (m w) (h.out w p.0) (h'.out w p.1);
}

-- A handler that meets no fault, and what another argument shows of it.
pub Post-and-End :
    {A : Type 0} (Q Q' E E' : World → Type 0) (out : Outcome A × World)
    → Post Q E out
    → End Q' E' out
    → Post (λ w. Q w × Q' w) (λ w. E w × E' w) out
Post-and-End Q Q' E E' (ok a, w) p p' = (p, p')
Post-and-End Q Q' E E' (failed, w) p p' = (p, p')
Post-and-End Q Q' E E' (aborted, w) p p' = absurd p

change-End :
    {A : Type 0} (Q Q' E E' : World → Type 0) (out : Outcome A × World)
    → ((w : World) → Q w → Q' w)
    → ((w : World) → E w → E' w)
    → End Q E out
    → End Q' E' out
change-End Q Q' E E' (ok a, w) q e p = q w p
change-End Q Q' E E' (failed, w) q e p = e w p
change-End Q Q' E E' (aborted, w) q e p = tt

-- The rule of consequence.
pub change-Ends :
    {A : Type 0} {P P' Q Q' E E' : World → Type 0} {m : M A}
    → ((w : World) → P' w → P w)
    → ((w : World) → Q w → Q' w)
    → ((w : World) → E w → E' w)
    → Ends P Q E m
    → Ends P' Q' E' m
change-Ends {Q = Q} {Q'} {E} {E'} {m} p q e h = record {
  out = λ w x. change-End Q Q' E E' (m w) q e (h.out w (p w x));
}

-- The steps that leave links, queues and messages alone.
module _ {P : World → Type 0} (s : Calm P) where
  pub alloc-Holds : Holds P alloc
  alloc-Holds = Leads-Ends (alloc-Keeps s)

  pub push-Holds : (fd : ℕ) (r : Reply) → Holds P (push fd r)
  push-Holds fd r = Leads-Ends (push-Keeps s fd r)

  pub require-alloc-Holds : (fd : ℕ) → Holds P (require fd alloc)
  require-alloc-Holds fd = Leads-Ends (require-Keeps s fd (alloc-Keeps s))

  pub require-push-Holds : (fd k : ℕ) (r : Reply) → Holds P (require fd (push k r))
  require-push-Holds fd k r = Leads-Ends (require-Keeps s fd (push-Keeps s k r))

  pub fail-Holds : {A : Type 0} (fd : ℕ) (e : Error) → Holds P (fail {A = A} fd e)
  fail-Holds fd e = Leads-Ends (fail-Leads s fd e)

  pub stop-Holds : {A : Type 0} → Holds P (stop {A = A})
  stop-Holds = Leads-Ends (stop-Leads s)

-- A change of one client that leaves its groups alone.
pub set_client-Holds :
    {P : World → Type 0}
    → Stable P
    → (fd : ℕ) (f : Client → Client) → ((c : Client) → (f c).groups ≡ c.groups)
    → Holds P (modify_client fd f)
set_client-Holds s fd f h = Leads-Ends (set_client-Keeps s fd f h)
