-- ===== src/Server/Trusted/Watching.antt =====
-- What a visit adds to the sets of descriptors of the loop over `select`.
use dime.Base.{
  ℕ, ◌≤◌, ◌<◌, ◌||◌, Bool, not, ◌&&◌, Option, none, some, List, [], ◌∷◌, ◌++◌, ltb, arith,
  Bool-cases, inl, inr,
}
use dime.World.{World, Outcome, ok, failed, aborted, M, alloc, elem, stop}
use dime.World.After.{End, Ends}
use dime.World.Logic.{Post, Leads}
use dime.World.Gives.{Outcomes, Gives}
use dime.World.Yields.{
  EndsWith, Yields, bind-Yields, then-Yields, if-Yields, pure-Yields, abort-Yields, Ends-Yields,
}
use dime.Client.Messages.{get_fds}
use dime.Server.{
  Protocol, ServerFd, Io, Change, watch, unwatch, Visited, continued, went_on, find_listener, is_ws,
  fd_setsize, watch_new, hang_up, enter, welcome, accept_from, admit, attend, read_new, read_part,
  write_part, visit,
}
use dime.Server.Loop.{Sets, raised, apply_change, apply_changes}

-- Descriptors that are watched from now on have a place in the sets.
abbrev pub Fit : List Change → Type 0
Fit [] = Unit {0}
Fit (watch fd ∷ changes) = (fd < fd_setsize) × Fit changes
Fit (unwatch fd ∷ changes) = Fit changes

abbrev changes_of : Visited → List Change
changes_of (continued changes) = changes
changes_of (went_on found changes) = changes

Fit-append : (cs ds : List Change) → Fit cs → Fit ds → Fit (cs ++ ds)
Fit-append [] ds f g = g
Fit-append (watch fd ∷ cs) ds (below, f) g = (below, Fit-append cs ds f g)
Fit-append (unwatch fd ∷ cs) ds f g = Fit-append cs ds f g

pub apply_changes-maxfd :
    (cs : List Change) (s : Sets)
    → Fit cs
    → s.maxfd ≤ fd_setsize
    → (apply_changes cs s).maxfd ≤ fd_setsize
unfolding apply_changes apply_change raised
apply_changes-maxfd [] s f h = h
apply_changes-maxfd (watch fd ∷ cs) s (below, f) h =
    apply_changes-maxfd cs (apply_change (watch fd) s) f (ground arith)
apply_changes-maxfd (unwatch fd ∷ cs) s f h =
    apply_changes-maxfd cs (apply_change (unwatch fd) s) f h

-- Any world.
abbrev Any : World → Type 0
Any w = Unit {0}

Any-End : {A : Type 0} (out : Outcome A × World) → End Any Any out
Any-End (ok a, w) = tt
Any-End (failed, w) = tt
Any-End (aborted, w) = tt

any : {A : Type 0} (m : M A) → Ends Any Any Any m
any m = record { out = λ w p. Any-End (m w) }

-- What a step's result says, whatever the world.
abbrev Says : {A : Type 0} → (A → Type 0) → M A → Type 0
Says Q m = Yields Any (λ a w. Q a) Any m

hang_up-Fit : (fd : ℕ) → Says Fit (hang_up fd)
unfolding hang_up
hang_up-Fit fd = then-Yields (any _) (then-Yields (any _) (pure-Yields _ (λ w p. tt)))

watch_new-Fit : (fd : ℕ) → Says (λ v. Fit (changes_of v)) (watch_new fd)
unfolding watch_new
watch_new-Fit fd = elim (Bool-cases (ltb fd fd_setsize)) [
  | inl fits ↦ rw fits (pure-Yields _ (λ w p. (ground (arith, fits), tt)))
  | inr large ↦ rw large abort-Yields
]

module _ (verbose : Bool) where
  enter-Fit : (fd : ℕ) → Says (λ v. Fit (changes_of v)) (enter verbose fd)
  unfolding enter
  enter-Fit fd =
      bind-Yields (Ends-Yields (any alloc)) λ entered. then-Yields (any _) (watch_new-Fit fd)

  accept_from-Fit :
      (protocol : Protocol) (upgraded : Bool) (accepted : Option ℕ)
      → Says (λ v. Fit (changes_of v)) (accept_from verbose protocol upgraded accepted)
  unfolding accept_from welcome
  accept_from-Fit protocol upgraded none = pure-Yields _ (λ w p. tt)
  accept_from-Fit protocol upgraded (some fd) = then-Yields (any _) (
      if-Yields (is_ws protocol && not upgraded) (then-Yields (any _) (pure-Yields _ (λ w p. tt)))
        (enter-Fit fd))

  module _ (listeners : List ServerFd) where
    read_new-Fit :
        (io : Io) (protocol : Option Protocol)
        → Says (λ v. Fit (changes_of v)) (read_new verbose listeners io protocol)
    unfolding read_new admit
    read_new-Fit io none = pure-Yields _ (λ w p. tt)
    read_new-Fit io (some protocol) =
        then-Yields (any _)
          (bind-Yields (Ends-Yields (any get_fds)) λ fds. accept_from-Fit protocol io.upgraded _)

    attend-Fit : (io : Io) (i : ℕ) → Says (λ v. Fit (changes_of v)) (attend io i)
    unfolding attend stop
    attend-Fit io i =
        if-Yields io.received
          (then-Yields (any _) (if-Yields io.malformed stops (pure-Yields _ (λ w p. tt))))
          (bind-Yields (hang_up-Fit i) (λ changes. pure-Yields _ (λ w p. p)))
      where
        stops : Says (λ v. Fit (changes_of v)) (stop {A = Visited})
        stops = record { out = λ w p. tt }

    read_part-Fit :
        (io : Io) (i : ℕ) → Says (λ v. Fit (changes_of v)) (read_part verbose listeners io i)
    unfolding read_part
    read_part-Fit io i = bind-Yields (Ends-Yields (any get_fds)) λ fds.
        if-Yields (elem i fds) (attend-Fit io i) (read_new-Fit io (find_listener listeners i))

    write_part-Fit :
        (io : Io) (i : ℕ) (ready : Bool) (visited : Visited)
        → Fit (changes_of visited)
        → Says Fit (write_part io i ready visited)
    unfolding write_part
    write_part-Fit io i ready (continued changes) f = pure-Yields changes (λ w p. f)
    write_part-Fit io i ready (went_on found changes) f =
        bind-Yields (Ends-Yields (any get_fds)) λ fds.
          if-Yields (ready && (found || elem i fds) && not io.written)
            (bind-Yields (hang_up-Fit i)
              (λ closed. pure-Yields _ (λ w g. Fit-append changes closed f g)))
            (pure-Yields changes (λ w p. f))

    write_after :
        (io : Io) (i : ℕ) (ready : Bool) (visited : Visited)
        → Yields
            (λ w. Fit (changes_of visited))
            (λ changes w. Fit changes)
            Any
            (write_part io i ready visited)
    write_after io i ready visited = record {
      out = λ w f. (write_part-Fit io i ready visited f).out w tt;
    }

    -- A visit adds to the sets only descriptors that have a place there.
    pub visit-Fit :
        (rset wset : Bool) (io : Io) (i : ℕ) → Says Fit (visit verbose listeners rset wset io i)
    unfolding visit
    visit-Fit rset wset io i =
        bind-Yields
          (if-Yields (rset && io.readable) (read_part-Fit io i) (pure-Yields _ (λ w p. tt)))
          (λ visited. write_after io i (wset && io.writable) visited)

-- A step that meets no fault, and what is known of its result.
meets :
    {A : Type 0} (Q : World → Type 0) (E : World → Type 0) (R : A → Type 0)
    (out : Outcome A × World)
    → Post Q E out
    → EndsWith (λ a w. R a) Any out
    → Outcomes (λ a w. Q w × R a) E out
meets Q E R (ok a, w) p e = (p, e)
meets Q E R (failed, w) p e = p
meets Q E R (aborted, w) p e = p

pub with_result :
    {A : Type 0} {P Q E : World → Type 0} {R : A → Type 0} {m : M A}
    → Leads P Q E m
    → Says R m
    → Gives P (λ a w. Q w × R a) E m
with_result {Q = Q} {E} {R} {m} h k = record {
  out = λ w p. meets Q E R (m w) (h.out w p) (k.out w tt);
}
