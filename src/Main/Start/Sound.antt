-- ===== src/Main/Start/Sound.antt =====
-- The whole program of server/main.c, from its arguments to the rounds of the server's loop.
use dime.Base.{ℕ, refl, Bool, List, arith, ltb}
use dime.World.{World, Client}
use dime.World.After.{End}
use dime.Server.{blank}
use dime.Server.Setup.{InitCalls, AddCalls}
use dime.Server.Loop.{Round}
use dime.Server.Loop.Sound.{FreshAll, server_loop-Sound}
use dime.Server.Sound.{Sound}
use dime.Main.Text.{Text}
use dime.Main.Start.{
  Started, started, helped, usage_err, fatal, crashed, start, initial, Ended, not_started, looped,
  loop_from, main,
}

pub initial-Sound : (before : ℕ → Client) (grants : List Bool) → Sound (initial before grants)
unfolding initial blank
initial-Sound before grants = record {
  linked = record { both = λ fd name. refl; once = λ fd name. omega arith; known = λ name h. refl };
  members_open = λ fd h. refl;
  listed_once = λ fd. omega arith;
}

-- Where `main` comes to its loop, the server is sound.
abbrev pub EndsSound : Ended → Type 0
EndsSound (not_started why) = Unit {0}
EndsSound (looped out) = End Sound Sound out

loop_from-Sound :
    (listened : ℕ → Bool) (rounds : List Round) (w : World) (s : Started)
    → FreshAll rounds
    → Sound w
    → EndsSound (loop_from listened rounds w s)
unfolding loop_from
loop_from-Sound listened rounds w (started o srv) fresh h =
    server_loop-Sound (ltb 0 o.verbosity) srv.fds listened rounds w fresh h
loop_from-Sound listened rounds w helped fresh h = tt
loop_from-Sound listened rounds w usage_err fresh h = tt
loop_from-Sound listened rounds w fatal fresh h = tt
loop_from-Sound listened rounds w crashed fresh h = tt

-- Whatever the arguments, and whatever the system does, clients and groups point at each other after
-- the server's loop has made some rounds or returned -1, no group has a client that is not in the
-- table of clients, and the table lists no client twice, unless the loop meets a fault. `accept` never
-- returns a descriptor that is open.
pub main-Sound :
    (init_calls : InitCalls) (calls : ℕ → AddCalls) (listened : ℕ → Bool) (rounds : List Round)
    (before : ℕ → Client) (grants : List Bool) (name : Text) (args : List Text)
    → FreshAll rounds
    → EndsSound (main init_calls calls listened rounds (initial before grants) name args)
unfolding main
main-Sound init_calls calls listened rounds before grants name args fresh =
    loop_from-Sound listened rounds (initial before grants) (start init_calls calls name args) fresh
      (initial-Sound before grants)
