-- ===== src/Client/Session.antt =====
-- `dime_client_init`, `_destroy`, `_handshake` and `_devices`: how a client comes and goes, what it
-- agrees on with the server, and the list of groups. The client's printed address is left out but for
-- the memory that it needs.
pub mod Links
pub mod Teardown
pub mod Released
pub mod Arrived
pub mod Handshake
pub mod Devices
use dime.Base.{
  ℕ, ◌+◌, Bool, true, false, not, ◌&&◌, Option, none, some, List, [], ◌∷◌, ◌++◌, ◌==◌,
  if◌then◌else◌, length,
}
use dime.Deque.{Deque}
use dime.Deque
use dime.World.{
  World, Client, Group, Serialization, no_serialization, matlab, pickle, dimeb, json, Reply, M, ok,
  pure, ◌>>=◌, ◌>>◌, update, alloc, modify_client, modify_group, push, fail, abort, stop, require,
  json_parsing, handshake_reply, reregister, devices_reply,
}
use dime.Client.Groups.{index_of, swap_remove, get_client, get_group, drop_clnt}
use dime.Client.Messages.{drop_ref, others, get_fds}

-- Memory without which the caller returns -1 and says nothing.
pub or_stop : M Bool → M (Unit {0})
or_stop m = do done ← m; if done then pure tt else stop

set_client : ℕ → Option (Deque ℕ) → M (Unit {0})
set_client fd none = stop
set_client fd (some q) =
    modify_client fd
      (λ _. record { waiting = false; groups = []; groups_cap = 4; sent = []; queue = q })

-- `dime_client_init`: its address, its groups, its socket and its queue each need memory.
pub init : ℕ → M (Unit {0})
init fd = do
  or_stop alloc
  or_stop alloc
  or_stop alloc
  granted ← alloc
  set_client fd (Deque.init 0 granted 0)

drop_found : ℕ → Option ℕ → M (Unit {0})
drop_found name none = pure tt
drop_found name (some j) = modify_group name (drop_clnt j)

-- The client is taken out of each group's array.
pub leave_groups : ℕ → List ℕ → M (Unit {0})
leave_groups fd [] = pure tt
leave_groups fd (name ∷ names) = do
  g ← get_group name
  drop_found name (index_of fd g.clnts)
  leave_groups fd names

drop_refs : List ℕ → M (Unit {0})
drop_refs [] = pure tt
drop_refs (id ∷ ids) = drop_ref id >> drop_refs ids

drop_walked : Option (List ℕ) → M (Unit {0})
drop_walked none = abort
drop_walked (some ids) = drop_refs ids

-- `dime_client_destroy`, up to the release of its own memory. A walk over the queue takes at most one
-- step more than its array has cells.
pub destroy : ℕ → M (Unit {0})
destroy fd = do
  c ← get_client fd
  leave_groups fd c.groups
  drop_walked (Deque.walk 0 (c.queue.cap + 1) c.queue (Deque.iter_init 0 c.queue))

-- What the "serialization" of a handshake is compared with.
pub data Named : Type 0 where
  matlab_name pickle_name dimeb_name json_name other_name : Named

unfoldable pub serialization_of : Named → Option Serialization
serialization_of matlab_name = some matlab
serialization_of pickle_name = some pickle
serialization_of dimeb_name = some dimeb
serialization_of json_name = some json
serialization_of other_name = none

-- `==` on `enum dime_serialization`
same : Serialization → Serialization → Bool
same no_serialization no_serialization = true
same matlab matlab = true
same pickle pickle = true
same dimeb dimeb = true
same json json = true
same _ _ = false

set_serialization : Serialization → M (Unit {0})
set_serialization s w = (ok tt, record w { serialization = s })

-- The loop that tells the other clients to change over.
reregister_all : List ℕ → M (Unit {0})
reregister_all [] = pure tt
reregister_all (fd ∷ fds) = or_stop (push fd reregister) >> reregister_all fds

change_over : ℕ → M (Unit {0})
change_over fd = do
  or_stop alloc
  or_stop alloc
  fds ← get_fds
  reregister_all (others fd fds)
  set_serialization dimeb

-- The server's format and the client's: the first client's is taken, and where two differ the server
-- changes over to a format that all can read, unless it is at one.
agree : ℕ → Serialization → M (Unit {0})
agree fd s w =
    let cur = w.serialization in
    (if same cur no_serialization
        then set_serialization s
        else if not (same cur s) && (not (same cur dimeb) && not (same cur json))
        then change_over fd
        else pure tt)
      w

-- How `dime_socket_init_tls` ends: with 0; with -1, where memory is short, a write or the handshake of
-- OpenSSL fails; or at its assertion, where the socket holds bytes that were received and not popped.
pub data TlsResult : Type 0 where
  tls_zero tls_negative tls_unread : TlsResult

tls_step : TlsResult → M (Unit {0})
tls_step tls_zero = pure tt
tls_step tls_negative = stop
tls_step tls_unread = abort

-- The reply, and `dime_socket_init_tls`, whose end is an argument: the bytes that are there, and the
-- library that makes the TLS handshake, are the business of `Socket`.
answer : ℕ → Bool → TlsResult → M (Unit {0})
answer fd wants_tls result w =
    let tls = wants_tls && w.has_tls in
    ((or_stop alloc >> or_stop (push fd (handshake_reply w.serialization tls)))
        >> (if tls then tls_step result else pure tt))
      w

greet : ℕ → Option Serialization → Bool → TlsResult → M (Unit {0})
greet fd none tls result = stop
greet fd (some s) tls result = agree fd s >> answer fd tls result

-- `dime_client_handshake`; a request that cannot be unpacked is `none`.
pub handshake : ℕ → Option (Named × Bool) → TlsResult → M (Unit {0})
handshake fd none result = fail fd json_parsing
handshake fd (some (named, tls)) result = greet fd (serialization_of named) tls result

-- The names of the groups that have clients, each of which needs memory twice.
list_groups : ℕ → List ℕ → M (List ℕ)
list_groups fd [] = pure []
list_groups fd (name ∷ names) = do
  g ← get_group name
  if length g.clnts == 0
      then list_groups fd names
      else ((require fd alloc >> require fd alloc) >> list_groups fd names) >>= λ rest.
          pure (name ∷ rest)

unfoldable pub get_names : M (List ℕ)
get_names w = (ok w.names, w)

-- `dime_client_devices`
pub devices : ℕ → M (Unit {0})
devices fd = do
  require fd alloc
  names ← get_names
  listed ← list_groups fd names
  require fd alloc
  require fd (push fd (devices_reply listed))
