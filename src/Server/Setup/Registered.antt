-- ===== src/Server/Setup/Registered.antt =====
-- What `dime_server_add` leaves of the sockets that it opens.
use dime.Base.{ℕ, ◌+◌, ◌*◌, ◌≤◌, ◌<◌, ◌^◌, ◌≡◌, refl, ap, some, List, [], ◌∷◌, ◌++◌, arith, length}
use dime.Server.{ServerFd}
use dime.Client.Groups.Counts.{count}
use dime.Server.Setup.{
  Listening, InitCalls, init, AddCalls, grown, grow_fds, grow_pathnames, note_opened, note_closed,
}

abbrev pub fds_of : List ServerFd → List ℕ
fds_of [] = []
fds_of (l ∷ ls) = l.fd ∷ fds_of ls

-- There is room for the entries, capacities grow, and each socket that was opened listens or is closed.
pub record Registered (srv : Listening) : Type 0 where
  pub fds_fit : length srv.fds ≤ srv.fds_cap
  pub fds_least : 8 ≤ srv.fds_cap
  pub pathnames_fit : length srv.pathnames ≤ srv.pathnames_cap
  pub pathnames_least : 8 ≤ srv.pathnames_cap
  pub accounted : (fd : ℕ) → count fd srv.opened ≡ count fd srv.closed + count fd (fds_of srv.fds)

pub fds_of-append : (xs ys : List ServerFd) → fds_of (xs ++ ys) ≡ fds_of xs ++ fds_of ys
fds_of-append [] ys = refl
fds_of-append (x ∷ xs) ys = ap (λ l. x.fd ∷ l) (fds_of-append xs ys)

pub init-Registered : (calls : InitCalls) (srv : Listening) → init calls ≡ some srv → Registered srv
unfolding init
init-Registered calls srv h = ground arith

module _ (calls : AddCalls) (srv : Listening) (r : Registered srv) where
  pub closed-Registered : (fd : ℕ) → Registered (note_closed fd (note_opened fd srv))
  unfolding note_opened note_closed
  closed-Registered fd = record {
    fds_fit = r.fds_fit;
    fds_least = r.fds_least;
    pathnames_fit = r.pathnames_fit;
    pathnames_least = r.pathnames_least;
    accounted = λ k. ground (arith, r.accounted k);
  }

  pub grow_pathnames-Registered :
      (roomy : Listening)
      → 3 * srv.pathnames_cap < 2 ^ 64
      → grow_pathnames calls srv ≡ some roomy
      → Registered roomy
        × (roomy.fds ≡ srv.fds)
        × (roomy.fds_cap ≡ srv.fds_cap)
        × (roomy.pathnames ≡ srv.pathnames)
        × (length roomy.pathnames < roomy.pathnames_cap)
  unfolding grow_pathnames grown
  grow_pathnames-Registered roomy small h = ground arith

  pub grow_fds-Registered :
      (roomy : Listening)
      → 3 * srv.fds_cap < 2 ^ 64
      → grow_fds calls srv ≡ some roomy
      → Registered roomy
        × (roomy.fds ≡ srv.fds)
        × (roomy.pathnames ≡ srv.pathnames)
        × (roomy.pathnames_cap ≡ srv.pathnames_cap)
        × (length roomy.fds < roomy.fds_cap)
  unfolding grow_fds grown
  grow_fds-Registered roomy small h = ground arith
