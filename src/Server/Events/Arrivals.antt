-- ===== src/Server/Events/Arrivals.antt =====
-- The callback of libev for a listening socket, and the invariant about the links, the table of
-- clients and the watchers.
use dime.Base.{
  ℕ, ◌≡◌, refl, Bool, true, false, not, ◌&&◌, Option, none, some, List, [], ◌∷◌, ◌++◌, map, arith,
  ℕ_discrete,
}
use dime.World.{World, Outcome, ok, failed, aborted, abort, pure, ◌>>=◌, elem}
use dime.World.Links.{Stable, Stable-Calm}
use dime.World.After.{Ends, End, change-Ends, alloc-Holds}
use dime.World.Yields.{
  EndsWith, Yields, then-Yields, bind-Yields, if-Yields, pure-Yields, Ends-Yields, abort-Yields,
}
use dime.Client.Groups.Counts.{elem-append}
use dime.Client.Messages.{get_fds}
use dime.Client.Session.{init}
use dime.Client.Session.Links.{init-Holds}
use dime.Server.{Protocol, ServerFd, Io, add_fd, discard, is_ws}
use dime.Server.Events.{
  Watchers, going_on, start_reading, init_outcome, init_or_fault, enter_watched, welcome_watched,
  accepted_client, server_readable,
}
use dime.Server.Events.Sound.{Watched, Watched-of, Safe, Left, both}
use dime.Server.Sound.{Sound, Sound-Stable}
use dime.Server.Sound.Listing.{fds-Stable, discard_fds}
use dime.Server.Sound.Gone.{Absent, Absent-Stable, add_fd-Sound, drop_new-Sound}
use dime.Server.Sound.Visits.{Fresh, elem_behind}

module _ (fd : ℕ) (a : Watchers) where
  -- A client that is not in the table.
  New : World → Type 0
  New w = Absent fd w × Watched a w

  New-Stable : Stable New
  unfolding New
  New-Stable = record {
    move = λ w w' s (h, watched).
        ((Absent-Stable fd).move w w' s h, (fds-Stable (Watched-of a)).move w w' s watched);
  }

  no_failure :
      (out : Outcome (Unit {0}) × World) → End New New out → End New Sound (init_outcome out)
  unfolding init_outcome
  no_failure (ok x, w) h = h
  no_failure (failed, w) h = tt
  no_failure (aborted, w) h = tt

  init_or_fault-New : Ends New New Sound (init_or_fault fd)
  unfolding init_or_fault New
  init_or_fault-New = record {
    out = λ w p.
        no_failure (init fd w)
          ((init-Holds New-Stable fd (λ w ((h, out), watched). h.members_open fd out)).out w p);
  }

  discard-Watched : {E : World → Type 0} → Ends (Watched a) (Watched a) E (discard fd)
  discard-Watched = discard_fds fd (Watched-of a)

  add_fd-Watched :
      {E : World → Type 0} → Ends (Watched a) (Watched (start_reading fd a)) E (add_fd fd)
  unfolding add_fd Watched start_reading
  add_fd-Watched = record {
    out = λ w h k s. elim (ℕ_discrete k fd) [
      | yes here ↦ ground (arith, here, elem-append k w.fds (fd ∷ []))
      | no away ↦ ground (arith, h k, elem-append k w.fds (fd ∷ []))
    ];
  }

  enter_watched-Safe : Yields New Left Sound (enter_watched fd a)
  unfolding enter_watched New
  enter_watched-Safe =
      bind-Yields
        (Ends-Yields (
          change-Ends (λ w p. p) (λ w q. q) (λ w (x : New w). x.0.0)
            (alloc-Holds (Stable-Calm New-Stable))))
        λ entered.
          if-Yields entered
            (then-Yields (both (add_fd-Sound fd) add_fd-Watched)
              (pure-Yields (going_on, start_reading fd a) (λ w s. s)))
            (then-Yields (both (drop_new-Sound fd) discard-Watched) abort-Yields)

  welcome_watched-Safe :
      (protocol : Protocol) (upgraded : Bool)
      → Yields New Left Sound (welcome_watched protocol upgraded fd a)
  unfolding welcome_watched New
  welcome_watched-Safe protocol upgraded = then-Yields init_or_fault-New (
      if-Yields (is_ws protocol && not upgraded)
        (then-Yields (both (drop_new-Sound fd) discard-Watched)
          (pure-Yields (going_on, a) (λ w s. s)))
        enter_watched-Safe)

module _ (listeners : List ServerFd) (a : Watchers) where
  accepted_client-Safe :
      (got : Bool) (protocol : Protocol) (upgraded : Bool) (accepted : Option ℕ) (w : World)
      → Safe a w
      → ((fd : ℕ) → accepted ≡ some fd → elem fd w.fds ≡ false)
      → EndsWith Left Sound (accepted_client got protocol upgraded accepted a w)
  unfolding accepted_client pure abort New
  accepted_client-Safe got protocol upgraded none w s fresh = s
  accepted_client-Safe true protocol upgraded (some fd) w (h, watched) fresh =
      (welcome_watched-Safe fd a protocol upgraded).out w ((h, fresh fd refl), watched)
  accepted_client-Safe false protocol upgraded (some fd) w s fresh = tt

  accepting-Safe :
      (got : Bool) (protocol : Protocol) (io : Io)
      → Fresh io
      → Yields (Safe a) Left Sound (
          get_fds >>= λ fds.
          accepted_client got protocol io.upgraded
            (io.accepted (map (λ (l : ServerFd). l.fd) listeners ++ fds))
            a)
  unfolding get_fds ◌>>=◌
  accepting-Safe got protocol io fresh = record {
    out = λ w s.
        accepted_client-Safe got protocol io.upgraded _ w s
          (λ fd e. elem_behind true listeners fd _ w.fds (fresh _ fd e));
  }

  Safe-Stable : Stable (Safe a)
  Safe-Stable = record {
    move = λ w w' s (h, watched).
        (Sound-Stable.move w w' s h, (fds-Stable (Watched-of a)).move w w' s watched);
  }

  pub server_readable-Safe :
      (protocol : Protocol) (io : Io)
      → Fresh io
      → Yields (Safe a) Left Sound (server_readable listeners protocol io a)
  unfolding server_readable
  server_readable-Safe protocol io fresh =
      bind-Yields
        (Ends-Yields (
          change-Ends (λ w p. p) (λ w q. q) (λ w (x : Safe a w). x.0)
            (alloc-Holds (Stable-Calm Safe-Stable))))
        (λ got. accepting-Safe got protocol io fresh)
