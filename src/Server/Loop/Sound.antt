-- ===== src/Server/Loop/Sound.antt =====
-- The loop over `select`, and the invariant about the links and the table.
use dime.Base.{ℕ, zero, suc, ◌+◌, Bool, not, List, [], ◌∷◌, ltb}
use dime.World.{World}
use dime.World.Links.{Stable-Calm}
use dime.World.After.{End, Ends, Holds, bind-Ends, if-Ends, pure-Ends, abort-Ends, stop-Holds}
use dime.Server.{fd_setsize, ServerFd, Io}
use dime.Server.Loop.{
  Sets, Round, apply_changes, visits, refresh, round, run, listen_all, no_sets, server_loop,
}
use dime.Server.Sound.{Sound, Sound-Stable}
use dime.Server.Sound.Visits.{Fresh, visit-Sound}

-- In no round does `accept` return a descriptor that is open.
unfoldable pub FreshAll : List Round → Type 0
FreshAll [] = Unit {0}
FreshAll (r ∷ rs) = ((i : ℕ) → Fresh (r.io i)) × FreshAll rs

refresh-Ends : {P E : World → Type 0} (unsent : ℕ → Bool) (s : Sets) → Ends P P E (refresh unsent s)
unfolding refresh
refresh-Ends unsent s = record { out = λ w p. p }

module _ (verbose : Bool) (listeners : List ServerFd) where
  visits-Sound :
      (n : ℕ) (copies : Sets) (io : ℕ → Io) (i : ℕ) (s : Sets)
      → ((k : ℕ) → Fresh (io k))
      → Holds Sound (visits n verbose listeners copies io i s)
  unfolding visits
  visits-Sound zero copies io i s fresh = if-Ends (ltb i s.maxfd) abort-Ends (pure-Ends s)
  visits-Sound (suc n) copies io i s fresh =
      if-Ends (ltb i s.maxfd)
        (bind-Ends
          (visit-Sound verbose listeners (copies.rfds i) (copies.wfds i) (io i) i (fresh i))
          (λ changes. visits-Sound n copies io (i + 1) (apply_changes changes s) fresh))
        (pure-Ends s)

  round-Sound :
      (r : Round) (s : Sets)
      → ((i : ℕ) → Fresh (r.io i))
      → Holds Sound (round verbose listeners r s)
  unfolding round
  round-Sound r s fresh =
      if-Ends r.selected
        (bind-Ends (visits-Sound fd_setsize s r.io 3 s fresh) (λ s'. refresh-Ends r.unsent s'))
        (stop-Holds (Stable-Calm Sound-Stable))

  run-Sound : (rs : List Round) (s : Sets) → FreshAll rs → Holds Sound (run verbose listeners rs s)
  unfolding run FreshAll
  run-Sound [] s fresh = pure-Ends s
  run-Sound (r ∷ rs) s (fresh, later) =
      bind-Ends (round-Sound r s fresh) (λ s'. run-Sound rs s' later)

listen_all-Sound :
    (listened : ℕ → Bool) (ls : List ServerFd) (s : Sets) → Holds Sound (listen_all listened ls s)
unfolding listen_all
listen_all-Sound listened [] s = pure-Ends s
listen_all-Sound listened (l ∷ ls) s = if-Ends (not (ltb l.fd fd_setsize)) abort-Ends (
    if-Ends (listened l.fd) (listen_all-Sound listened ls _)
      (stop-Holds (Stable-Calm Sound-Stable)))

-- The server loop keeps the server sound, however many rounds it makes, whatever clients come, go and
-- ask for, whichever reads and writes fail and whatever memory is granted, both while it runs and where
-- it returns -1: clients and groups point at each other, no group has a client that is not in the table
-- of clients, and the table lists no client twice. `accept` never returns a descriptor that is open. A
-- loop that meets a failed assertion, freed memory or a descriptor that has no place in a set is left
-- out.
pub server_loop-Sound :
    (verbose : Bool) (listeners : List ServerFd) (listened : ℕ → Bool) (rs : List Round) (w : World)
    → FreshAll rs
    → Sound w
    → End Sound Sound (server_loop verbose listeners listened rs w)
unfolding server_loop
server_loop-Sound verbose listeners listened rs w fresh h =
    (bind-Ends (listen_all-Sound listened listeners no_sets)
        (λ s. run-Sound verbose listeners rs s fresh)).out
      w h
