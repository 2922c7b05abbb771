-- ===== src/Server/Loop/Faultless.antt =====
-- The loop over `select` where memory is granted.
use dime.Base.{ℕ, zero, suc, ◌+◌, ◌≤◌, ◌<◌, List, [], ◌∷◌, length}
use dime.World.{World}
use dime.Client.Messages.Counted.{Counted}
use dime.Server.{fd_setsize, ServerFd, Io}
use dime.Server.Loop.{Sets, Round}
use dime.Server.Sound.{Sound}
use dime.Server.Trusted.Clients.{Kept}
use dime.World.Gives.{Gives}
use dime.Server.Trusted.Visits.{Regular}

-- What the system does in each round is regular.
unfoldable pub AllRegular : List Round → Type 0
AllRegular [] = Unit {0}
AllRegular (r ∷ rs) = ((i : ℕ) → Regular (r.io i)) × AllRegular rs

-- The listening sockets have a place in the sets.
abbrev pub ListenersFit : List ServerFd → Type 0
ListenersFit [] = Unit {0}
ListenersFit (l ∷ ls) = (l.fd < fd_setsize) × ListenersFit ls

-- How many requests `n` descriptors have, from `i` on, and all descriptors in some rounds.
unfoldable pub requests_from : (ℕ → Io) → ℕ → ℕ → ℕ
requests_from io i zero = 0
requests_from io i (suc n) = length (io i).requests + requests_from io (i + 1) n

unfoldable pub requests_in : List Round → ℕ
requests_in [] = 0
requests_in (r ∷ rs) = requests_from r.io 3 fd_setsize + requests_in rs

-- The sets have not outgrown their size.
abbrev Sized : ℕ → Sets → World → Type 0
Sized n s w = Kept n w × (s.maxfd ≤ fd_setsize)
