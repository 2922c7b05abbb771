-- ===== src/Server/Events.antt =====
-- server/server.c where it is built with libev: the callbacks of its watchers, and the loop that calls
-- them. What libev reports, and what the system gives to a callback, is an argument.
pub mod Sound
pub mod Arrivals
pub mod Runs
pub mod Examples
use dime.Base.{
  ℕ, ◌+◌, Bool, true, false, not, ◌&&◌, ◌||◌, Option, none, some, List, [], ◌∷◌, ◌++◌, ◌==◌,
  if◌then◌else◌, map,
}
use dime.World.{
  World, Outcome, ok, failed, aborted, M, pure, ◌>>=◌, ◌>>◌, update, elem, alloc, stop, abort,
}
use dime.Client.Messages.{get_fds}
use dime.Client.Session.{init}
use dime.Request.{serve}
use dime.Server.{Protocol, ServerFd, Io, add_fd, discard, hang_up, is_ws}

-- The watchers of clients' sockets that are started, `rwatcher` and `wwatcher`.
pub record Watchers : Type 0 where
  pub reading : ℕ → Bool
  pub writing : ℕ → Bool

-- What a callback leaves to the loop: to go on, to end by `ev_unloop`, or nothing, since it does not
-- return.
pub data Fired : Type 0 where
  going_on unlooped spinning : Fired

-- `ev_io_stop` and `ev_io_start`
pub stop_both : ℕ → Watchers → Watchers
stop_both fd a = record { reading = update a.reading fd false; writing = update a.writing fd false }

pub stop_writing : ℕ → Watchers → Watchers
stop_writing fd a = record a { writing = update a.writing fd false }

pub start_reading : ℕ → Watchers → Watchers
start_reading fd a = record a { reading = update a.reading fd true }

-- The end of a connection.
pub close_client : ℕ → Watchers → M (Fired × Watchers)
close_client fd a = hang_up fd >> pure (going_on, stop_both fd a)

-- What `dime_socket_sendpartial` does: it fails, or it leaves bytes to send or none.
wrote : ℕ → Option Bool → Watchers → M (Fired × Watchers)
wrote fd none a = close_client fd a
wrote fd (some sent_all) a = pure (going_on, if sent_all then stop_writing fd a else a)

-- `ev_client_writable`; `both` says that `revents` has both flags.
pub client_writable : Bool → Option Bool → ℕ → Watchers → M (Fired × Watchers)
client_writable both sent fd a = if both then close_client fd a else wrote fd sent a

-- What `ev_client_readable` leaves behind the requests. `retried` says that `dime_socket_pop` has
-- returned -1 for want of memory: `ev_unloop` is called, and the next call finds the message still
-- there. Behind bytes that are no message each call meets the same bytes.
pub after_requests : Bool → Bool → Fired
after_requests malformed retried =
    if malformed then spinning else if retried then unlooped else going_on

-- `ev_client_readable`
pub client_readable : Bool → Bool → Io → ℕ → Watchers → M (Fired × Watchers)
unfolding after_requests
client_readable both retried io fd a =
    if both
    then close_client fd a
    else if io.received
    then serve fd io.requests >> pure (after_requests io.malformed retried, a)
    else close_client fd a

-- `dime_client_init`, on whose failure the freed client is written to.
init_outcome : Outcome (Unit {0}) × World → Outcome (Unit {0}) × World
init_outcome (ok a, w) = (ok a, w)
init_outcome (failed, w) = (aborted, w)
init_outcome (aborted, w) = (aborted, w)

pub init_or_fault : ℕ → M (Unit {0})
init_or_fault fd w = init_outcome (init fd w)

-- A new entry of `fd2clnt`, without which the freed client's watchers are started.
pub enter_watched : ℕ → Watchers → M (Fired × Watchers)
enter_watched fd a = do
  entered ← alloc
  if entered then add_fd fd >> pure (going_on, start_reading fd a) else discard fd >> abort

pub welcome_watched : Protocol → Bool → ℕ → Watchers → M (Fired × Watchers)
welcome_watched protocol upgraded fd a = do
  init_or_fault fd
  if is_ws protocol && not upgraded then discard fd >> pure (going_on, a) else enter_watched fd a

-- Without memory for the client `ev_unloop` is called, and a connection is accepted all the same, with
-- NULL for the client.
accepted_client : Bool → Protocol → Bool → Option ℕ → Watchers → M (Fired × Watchers)
accepted_client got protocol upgraded none a = pure (if got then going_on else unlooped, a)
accepted_client got protocol upgraded (some fd) a =
    if got then welcome_watched protocol upgraded fd a else abort

-- `ev_server_readable`. The open descriptors are the listening ones and the clients'.
pub server_readable : List ServerFd → Protocol → Io → Watchers → M (Fired × Watchers)
server_readable listeners protocol io a = do
  got ← alloc
  fds ← get_fds
  accepted_client got protocol io.upgraded
      (io.accepted (map (λ (l : ServerFd). l.fd) listeners ++ fds)) a

-- What libev reports: on a client's socket, or a connection at a listening one.
pub data Event : Type 0 where
  read_event : ℕ → Bool → Bool → Io → Event
  write_event : ℕ → Bool → Option Bool → Event
  connect_event : Protocol → Io → Event

-- A callback is called while its watcher is started.
pub fire : List ServerFd → Event → Watchers → M (Fired × Watchers)
fire listeners (read_event fd both retried io) a =
    if a.reading fd then client_readable both retried io fd a else pure (going_on, a)
fire listeners (write_event fd both sent) a =
    if a.writing fd then client_writable both sent fd a else pure (going_on, a)
fire listeners (connect_event protocol io) a = server_readable listeners protocol io a

-- `dime_socket_push_str` starts the watcher of a socket that had nothing to send.
pub started_writing : (ℕ → Bool) → Watchers → Watchers
started_writing pushed a = record a { writing = λ fd. a.writing fd || pushed fd }

-- An event, and the sockets to which its callback pushes while they have nothing to send.
pub record Occurrence : Type 0 where
  pub event : Event
  pub pushed : ℕ → Bool

-- Whether the loop ends behind the events that are pending.
after_event : Fired → Bool → Fired
after_event going_on ends = if ends then unlooped else going_on
after_event unlooped ends = unlooped
after_event spinning ends = spinning

-- What follows an event, unless its callback does not return.
resume : Fired → Watchers → (Bool → M (Fired × Watchers)) → M (Fired × Watchers)
resume going_on a rest = rest false
resume unlooped a rest = rest true
resume spinning a rest = pure (spinning, a)

-- The events of one iteration of libev's loop, which `ev_unloop` does not cut short.
pub fire_all : List ServerFd → List Occurrence → Bool → Watchers → M (Fired × Watchers)
fire_all listeners [] ends a = pure (if ends then unlooped else going_on, a)
fire_all listeners (e ∷ es) ends a = do
  out ← fire listeners e.event a
  resume (after_event out.0 ends) (started_writing e.pushed out.1)
      (λ ends'. fire_all listeners es ends' (started_writing e.pushed out.1))

iterate : Fired → Watchers → M (Fired × Watchers) → M (Fired × Watchers)
iterate going_on a rest = rest
iterate unlooped a rest = pure (unlooped, a)
iterate spinning a rest = pure (spinning, a)

-- Some iterations of `ev_loop`.
pub ev_loop : List ServerFd → List (List Occurrence) → Watchers → M (Fired × Watchers)
ev_loop listeners [] a = pure (going_on, a)
ev_loop listeners (es ∷ ess) a = do
  out ← fire_all listeners es false a
  iterate out.0 out.1 (ev_loop listeners ess out.1)

no_watchers : Watchers
no_watchers = record { reading = λ fd. false; writing = λ fd. false }

-- The watchers of the listening sockets are started, while `listen` succeeds on them.
listen_watched : (ℕ → Bool) → List ServerFd → M (Unit {0})
listen_watched listened [] = pure tt
listen_watched listened (l ∷ ls) = if listened l.fd then listen_watched listened ls else stop

-- `dime_server_loop`, for as many iterations as `ess` has. That it ends with `unlooped` is a 0.
pub server_loop : Bool → List ServerFd → (ℕ → Bool) → List (List Occurrence) → M (Fired × Watchers)
server_loop loop_made listeners listened ess =
    if loop_made
    then listen_watched listened listeners >> ev_loop listeners ess no_watchers
    else stop
