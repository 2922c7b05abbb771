-- ===== src/Server/Trusted/Welcome.antt =====
-- A client that is accepted where memory is granted.
use dime.Base.{
  ℕ, suc, ◌+◌, ◌<◌, ◌^◌, ◌≡◌, ap, Bool, true, false, not, ◌&&◌, [], ◌∷◌, ltb, arith, length,
}
use dime.World.{World, ◌>>=◌, elem}
use dime.World.Logic.{Leads, change-Post}
use dime.World.Links.{Stable}
use dime.World.After.{Post-and-End}
use dime.World.Granted.{alloc_granted}
use dime.World.Gives.{Gives, then-Gives, if-Gives, pure-Gives}
use dime.Client.Messages.Safe.{Bounded}
use dime.Client.Session.{init}
use dime.Client.Session.Arrived.{Newcomer, init-Newcomer}
use dime.Client.Session.Links.{init-Holds}
use dime.Server.{
  Protocol, watch, Visited, continued, went_on, add_fd, discard, is_ws, fd_setsize, watch_new,
  enter, welcome,
}
use dime.Server.Sound.{Sound}
use dime.Server.Sound.Gone.{Absent, Absent-Stable, add_fd-Sound, drop_new-Sound}
use dime.Server.Trusted.Clients.{Kept, drop_new-Bounded, add_fd-Bounded}

-- What holds when the part of a visit that reads is done: a client that it went on with is connected.
abbrev pub ReadDone : ℕ → ℕ → Visited → World → Type 0
ReadDone i n (continued changes) w = Kept n w
ReadDone i n (went_on false changes) w = Kept n w
ReadDone i n (went_on true changes) w = Kept n w × (elem i w.fds ≡ true)

pub later-Kept : (n m : ℕ) (w : World) → Kept n w → Kept (n + m) w
later-Kept n m w ((c, early), h) = ((c, omega arith), h)

module _ (fd n : ℕ) where
  -- Room for one more client, which is not in the table.
  abbrev pub Roomy : World → Type 0
  Roomy w = Absent fd w × (suc (length w.fds) < 2 ^ 32)

  Roomy-Stable : Stable Roomy
  Roomy-Stable = record {
    move = λ w w' s (a, few).
        ((Absent-Stable fd).move w w' s a, omega (arith, few, ap length s.same_fds));
  }

  init-Roomy :
      Leads (λ w. Bounded n w × Roomy w) (λ w. Newcomer fd n w × Roomy w) (Kept n) (init fd)
  init-Roomy = record {
    out = λ w (b, ((h, out), few)).
        change-Post (λ v. Newcomer fd n v × Roomy v) _
          (λ v. (Bounded n v × (elem fd v.fds ≡ false)) × Roomy v) _ _ (λ v x. x)
          (λ v x. (x.0.0, x.1.0.0))
          (Post-and-End (Newcomer fd n) Roomy (λ v. Bounded n v × (elem fd v.fds ≡ false)) Roomy _
            ((init-Newcomer fd n).out w (b, out))
            ((init-Holds Roomy-Stable fd (λ v r. r.0.0.members_open fd r.0.1)).out w
              ((h, out), few)));
  }

  drop_new-Kept : Leads (λ w. Newcomer fd n w × Roomy w) (Kept n) (Kept n) (discard fd)
  drop_new-Kept = record {
    out = λ w (b, (a, few)).
        Post-and-End (Bounded n) Sound (Bounded n) Sound _ ((drop_new-Bounded fd n).out w b)
          ((drop_new-Sound fd).out w a);
  }

  add_fd-Kept : Leads (λ w. Newcomer fd n w × Roomy w) (Kept n) (Kept n) (add_fd fd)
  add_fd-Kept = record {
    out = λ w (b, (a, few)).
        Post-and-End (Bounded n) Sound (Bounded n) Sound _ (add_fd-Bounded fd n w b few)
          ((add_fd-Sound fd).out w a);
  }

  module _ (i : ℕ) where
    watch_new-Gives : fd < fd_setsize → Gives (Kept n) (ReadDone i n) (Kept n) (watch_new fd)
    unfolding watch_new
    watch_new-Gives below =
        let fits : ltb fd fd_setsize ≡ true = ground arith in
        rw fits (pure-Gives (went_on false (watch fd ∷ [])) (λ v k. k))

    enter-Gives :
        (verbose : Bool)
        → fd < fd_setsize
        → Gives (λ w. Newcomer fd n w × Roomy w) (ReadDone i n) (Kept n) (enter verbose fd)
    unfolding enter ◌>>=◌
    enter-Gives verbose below = record {
      out = λ w p.
          rw (alloc_granted w p.0.0.0.granted)
            ((then-Gives {E = Kept n} add_fd-Kept (watch_new-Gives below)).out w p);
    }

    pub welcome-Gives :
        (verbose : Bool) (protocol : Protocol) (upgraded : Bool)
        → fd < fd_setsize
        → Gives
            (λ w. Bounded n w × Roomy w)
            (ReadDone i n)
            (Kept n)
            (welcome verbose protocol upgraded fd)
    unfolding welcome
    welcome-Gives verbose protocol upgraded below = then-Gives init-Roomy (
        if-Gives (is_ws protocol && not upgraded)
          (then-Gives drop_new-Kept (pure-Gives (continued []) (λ v k. k)))
          (enter-Gives verbose below))
