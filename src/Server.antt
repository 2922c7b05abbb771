-- ===== src/Server.antt =====
-- server/server.c: the event loop over `select`. What the system gives to one visit of a descriptor
-- is an argument, as are the results of the calls that read and write sockets; what a socket holds
-- is the business of `Socket`.
pub mod Loop
pub mod Events
pub mod Examples
pub mod Setup
pub mod Teardown
pub mod Keys
pub mod Sound
pub mod Trusted
use dime.Base.{
  ℕ, zero, suc, ◌+◌, Bool, true, false, Option, none, some, List, [], ◌∷◌, ◌++◌, ◌&&◌, ◌||◌, not,
  ltb, ◌==◌, if◌then◌else◌, map,
}
use dime.World.{
  World, Client, Outcome, ok, failed, aborted, M, pure, ◌>>=◌, ◌>>◌, update, elem, alloc,
  modify_client, stop, abort,
}
use dime.Client.Messages.{get_fds}
use dime.Client.Session.{or_stop, init, destroy}
use dime.Request.{Request, serve}

-- `enum dime_protocol`
pub data Protocol : Type 0 where
  dime_unix dime_tcp dime_ws : Protocol

-- `dime_server_fd_t`
pub record ServerFd : Type 0 where
  pub fd : ℕ
  pub protocol : Protocol

-- What the system does in one visit: whether `select` finds the descriptor ready, the descriptor that
-- `accept` returns, given those that are open, whether the WebSocket handshake succeeds, whether
-- `dime_socket_recvpartial` returns more than 0, the requests that the socket then holds, whether
-- `dime_socket_pop` returns -1 behind them, and whether `dime_socket_sendpartial` succeeds.
pub record Io : Type 0 where
  pub readable : Bool
  pub writable : Bool
  pub accepted : List ℕ → Option ℕ
  pub upgraded : Bool
  pub received : Bool
  pub requests : List Request
  pub malformed : Bool
  pub written : Bool

-- `FD_SETSIZE`
abbrev pub fd_setsize : ℕ
fd_setsize = 1024

-- `FD_SET` and `FD_CLR` on the loop's sets
pub data Change : Type 0 where
  watch : ℕ → Change
  unwatch : ℕ → Change

-- What the reading part of a visit ends with: by `continue`, or by going on, with `clnt` found or not.
pub data Visited : Type 0 where
  continued : List Change → Visited
  went_on : Bool → List Change → Visited

pub add_fd : ℕ → M (Unit {0})
add_fd fd w = (ok tt, record w { fds = w.fds ++ (fd ∷ []) })

abbrev pub without : ℕ → List ℕ → List ℕ
without fd [] = []
without fd (k ∷ ks) = let rest = without fd ks in if k == fd then rest else k ∷ rest

unfoldable pub remove_fd : ℕ → M (Unit {0})
remove_fd fd w = (ok tt, record w { fds = without fd w.fds })

-- `free(clnt)`: what stands there from now on is taken for a client with no groups.
unfoldable pub blank : Client → Client
blank c = record c { waiting = false; groups = []; groups_cap = 0; sent = [] }

unfoldable pub release : ℕ → M (Unit {0})
release fd = modify_client fd blank

-- `dime_client_destroy(clnt); free(clnt);`
pub discard : ℕ → M (Unit {0})
discard fd = destroy fd >> release fd

-- A client whose connection is closed.
pub hang_up : ℕ → M (List Change)
hang_up fd = do remove_fd fd; discard fd; pure (unwatch fd ∷ [])

-- The first of the listening sockets with that descriptor.
pub find_listener : List ServerFd → ℕ → Option Protocol
find_listener [] i = none
find_listener (l ∷ ls) i = if l.fd == i then some l.protocol else find_listener ls i

is_ws : Protocol → Bool
is_ws dime_ws = true
is_ws _ = false

-- `FD_SET` of a new descriptor. A set has a place only for those below `FD_SETSIZE`, and a larger one is
-- written outside it.
watch_new : ℕ → M Visited
watch_new fd = if ltb fd fd_setsize then pure (went_on false (watch fd ∷ [])) else abort

-- A new entry of `fd2clnt`. Where it cannot be made the client is freed, and the descriptor is watched
-- all the same; a verbose server then prints the address of the freed client.
enter : Bool → ℕ → M Visited
enter verbose fd = do
  entered ← alloc
  if entered then add_fd fd else discard fd >> (if verbose then abort else pure tt)
  watch_new fd

-- What is done with an accepted connection.
pub welcome : Bool → Protocol → Bool → ℕ → M Visited
welcome verbose protocol upgraded fd = do
  init fd
  if is_ws protocol && not upgraded then discard fd >> pure (continued []) else enter verbose fd

accept_from : Bool → Protocol → Bool → Option ℕ → M Visited
accept_from verbose protocol upgraded none = pure (continued [])
accept_from verbose protocol upgraded (some fd) = welcome verbose protocol upgraded fd

-- A listening socket is ready. The open descriptors are the listening ones and the clients'.
admit : Bool → List ServerFd → Protocol → Io → M Visited
admit verbose listeners protocol io = do
  or_stop alloc
  fds ← get_fds
  accept_from verbose protocol io.upgraded
      (io.accepted (map (λ (l : ServerFd). l.fd) listeners ++ fds))

-- A client's socket is ready: the requests that are there are served, and what is no message makes
-- the loop return.
attend : Io → ℕ → M Visited
attend io i =
    if io.received
    then (serve i io.requests >> (if io.malformed then stop else pure (went_on true [])))
    else (hang_up i >>= λ changes. pure (continued changes))

read_new : Bool → List ServerFd → Io → Option Protocol → M Visited
read_new verbose listeners io none = pure (continued [])
read_new verbose listeners io (some protocol) = admit verbose listeners protocol io

-- The part of a visit that reads.
read_part : Bool → List ServerFd → Io → ℕ → M Visited
read_part verbose listeners io i = do
  fds ← get_fds
  if elem i fds then attend io i else read_new verbose listeners io (find_listener listeners i)

-- The part of a visit that writes, with what the other part has found and done.
write_part : Io → ℕ → Bool → Visited → M (List Change)
write_part io i ready (continued changes) = pure changes
write_part io i ready (went_on found changes) = do
  fds ← get_fds
  if ready && (found || elem i fds) && not io.written
      then (hang_up i >>= λ closed. pure (changes ++ closed))
      else pure changes

-- The body of the loop over the descriptors, for one that `select` may have found ready to read or to
-- write.
pub visit : Bool → List ServerFd → Bool → Bool → Io → ℕ → M (List Change)
visit verbose listeners rset wset io i = do
  visited ←
      if rset && io.readable then read_part verbose listeners io i else pure (went_on false [])
  write_part io i (wset && io.writable) visited
