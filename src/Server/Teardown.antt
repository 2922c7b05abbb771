-- ===== src/Server/Teardown.antt =====
-- server/server.c: `dime_server_destroy`. An entry of a table that the iterator has passed, and whose
-- value is freed, is no longer counted among `fds` or `names`; nothing reads it again.
pub mod Emptied
pub mod Examples
use dime.Base.{ℕ, List, [], ◌∷◌, ◌++◌, map}
use dime.World.{World, M, ok, pure, ◌>>=◌, ◌>>◌}
use dime.Client.Messages.{get_fds}
use dime.Client.Session.{get_names}
use dime.Server.{ServerFd, without, hang_up}
use dime.Server.Setup.{Listening}

-- `unlink` of each pathname, `close` of each listening socket, and the release of the arrays: what is
-- unlinked, and the record of what is open.
pub stop_listening : Listening → List (List ℕ) × Listening
stop_listening srv = (
  srv.pathnames,
  record srv {
    fds = [];
    pathnames = [];
    closed = map (λ (l : ServerFd). l.fd) srv.fds ++ srv.closed;
  },
)

-- `dime_client_destroy` and `free` for each entry of `fd2clnt`
close_clients : List ℕ → M (Unit {0})
close_clients [] = pure tt
close_clients (fd ∷ fds) = hang_up fd >> close_clients fds

-- The release of a group's name, its array and itself: nothing finds it by its name any more.
drop_name : ℕ → M (Unit {0})
drop_name name w = (ok tt, record w { names = without name w.names })

free_groups : List ℕ → M (Unit {0})
free_groups [] = pure tt
free_groups (name ∷ names) = drop_name name >> free_groups names

-- What `dime_server_destroy` does behind `stop_listening`, but for the release of the two tables' own
-- memory.
pub destroy : M (Unit {0})
destroy = do fds ← get_fds; close_clients fds; names ← get_names; free_groups names
