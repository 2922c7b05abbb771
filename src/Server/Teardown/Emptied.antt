-- ===== src/Server/Teardown/Emptied.antt =====
-- What `dime_server_destroy` leaves.
use dime.Base.{ℕ, false, ◌≡◌, refl, ap, List, [], ◌∷◌, arith, map}
use dime.World.{World, elem}
use dime.Client.Groups.Counts.{count, count-append}
use dime.Server.{ServerFd}
use dime.Server.Setup.{Listening}
use dime.Server.Setup.Registered.{Registered, fds_of}
use dime.Server.Sound.{Sound}
use dime.Server.Teardown.{stop_listening}

-- The table lists these clients.
Lists : List ℕ → World → Type 0
Lists ks w = w.fds ≡ ks

-- No clients and no groups are left in the tables, no group has kept a client that is freed, and no
-- client a group.
pub record Emptied (w : World) : Type 0 where
  pub no_clients : w.fds ≡ []
  pub no_names : w.names ≡ []
  pub no_members : (name : ℕ) → (w.groups name).clnts ≡ []
  pub no_groups : (fd : ℕ) → (w.clients fd).groups ≡ []

-- All clients have gone, and the names that are left are among some.
record Vacated (names : List ℕ) (w : World) : Type 0 where
  vacant : w.fds ≡ []
  members_left : (name : ℕ) → (w.groups name).clnts ≡ []
  groups_left : (fd : ℕ) → (w.clients fd).groups ≡ []
  among : (name : ℕ) → elem name names ≡ false → elem name w.names ≡ false

fds_of-map : (ls : List ServerFd) → map (λ (l : ServerFd). l.fd) ls ≡ fds_of ls
fds_of-map [] = refl
fds_of-map (l ∷ ls) = ap (λ ks. l.fd ∷ ks) (fds_of-map ls)

-- `dime_server_destroy` unlinks each pathname of the server, and then every socket that was opened to
-- listen is closed, as often as it was opened.
pub stop_listening_lem :
    (srv : Listening)
    → Registered srv
    → ((stop_listening srv).0 ≡ srv.pathnames)
      × ((fd : ℕ) → count fd (stop_listening srv).1.opened ≡ count fd (stop_listening srv).1.closed)
unfolding stop_listening
stop_listening_lem srv r = (
  refl,
  λ fd. omega (
    arith,
    r.accounted fd,
    count-append fd (map (λ (l : ServerFd). l.fd) srv.fds) srv.closed,
    ap (count fd) (fds_of-map srv.fds),
  ),
)
