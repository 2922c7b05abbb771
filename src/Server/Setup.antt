-- ===== src/Server/Setup.antt =====
-- server/server.c: `dime_server_init` and `dime_server_add`. What `socket`, `setsockopt`, `bind`,
-- `fork` and the calls that need memory return is an argument. The descriptors that were opened and
-- closed are noted. Texts are lists of bytes, without the zero behind them.
pub mod Registered
pub mod Opened
pub mod Added
pub mod Examples
use dime.Base.{
  ℕ, ◌+◌, ◌/◌, Bool, true, false, not, ◌&&◌, Option, none, some, List, [], ◌∷◌, ◌++◌, leb, mul_size,
  if◌then◌else◌, length, map, take,
}
use dime.Server.{Protocol, dime_unix, dime_tcp, dime_ws, ServerFd}

-- The part of `dime_server_t` that is about listening.
pub record Listening : Type 0 where
  pub fds : List ServerFd
  pub fds_cap : ℕ
  pub pathnames : List (List ℕ)
  pub pathnames_cap : ℕ
  pub opened : List ℕ
  pub closed : List ℕ

-- Which of the steps of `dime_server_init` succeed.
pub record InitCalls : Type 0 where
  pub fd_table : Bool
  pub name_table : Bool
  pub fds_memory : Bool
  pub pathnames_memory : Bool
  pub daemon : Bool
  pub forked : Bool

-- `dime_server_init`; `none` is its -1. The parent of a daemon exits, and is not followed.
pub init : InitCalls → Option Listening
init calls =
    if calls.fd_table
      && calls.name_table
      && calls.fds_memory
      && calls.pathnames_memory
      && not (calls.daemon && not calls.forked)
    then some (record {
      fds = [];
      fds_cap = 8;
      pathnames = [];
      pathnames_cap = 8;
      opened = [];
      closed = [];
    })
    else none

-- What the calls of `dime_server_add` return: for `socket` a descriptor, or none for -1.
pub record AddCalls : Type 0 where
  pub fds_memory : Bool
  pub copy_memory : Bool
  pub pathnames_memory : Bool
  pub socket : Option ℕ
  pub dual_stack : Bool
  pub ipv4_socket : Option ℕ
  pub bound : Bool

-- `protocol` and the argument behind it
pub data Target : Type 0 where
  unix_at : List ℕ → Target
  tcp_at : ℕ → Target
  ws_at : ℕ → Target
  unknown_protocol : ℕ → Target

-- `(cap * 3) / 2`
grown : ℕ → ℕ
grown cap = mul_size cap 3 / 2

-- Room for one more descriptor.
pub grow_fds : AddCalls → Listening → Option Listening
grow_fds calls srv =
    if leb srv.fds_cap (length srv.fds)
    then (if calls.fds_memory then some (record srv { fds_cap = grown srv.fds_cap }) else none)
    else some srv

-- Room for one more pathname.
pub grow_pathnames : AddCalls → Listening → Option Listening
grow_pathnames calls srv =
    if leb srv.pathnames_cap (length srv.pathnames)
    then (if calls.pathnames_memory
        then some (record srv { pathnames_cap = grown srv.pathnames_cap })
        else none)
    else some srv

pub note_opened : ℕ → Listening → Listening
note_opened fd srv = record srv { opened = fd ∷ srv.opened }

-- `close(fd)`
pub note_closed : ℕ → Listening → Listening
note_closed fd srv = record srv { closed = fd ∷ srv.closed }

-- `addr.sun_path`, whose 108 bytes end with a zero
abbrev pub sun_path : List ℕ → List ℕ
sun_path pathname = take 107 pathname

add_pathname : List ℕ → Listening → Listening
add_pathname pathname srv = record srv { pathnames = srv.pathnames ++ (pathname ∷ []) }

-- `bind`, after which the descriptor is known, or is closed again.
bind_socket : AddCalls → ℕ → Listening → Option ℕ × Listening
bind_socket calls fd srv = if calls.bound then (some fd, srv) else (none, note_closed fd srv)

-- What is done once `bind` has succeeded or not, for a pathname.
keep_pathname : List ℕ → Option ℕ × Listening → Option ℕ × Listening
keep_pathname pathname (none, srv) = (none, srv)
keep_pathname pathname (some fd, srv) = (some fd, add_pathname pathname srv)

open_unix : AddCalls → List ℕ → Option ℕ → Listening → Option ℕ × Listening
open_unix calls pathname none srv = (none, srv)
open_unix calls pathname (some fd) srv =
    keep_pathname pathname (bind_socket calls fd (note_opened fd srv))

unix_grown : AddCalls → List ℕ → Listening → Option Listening → Option ℕ × Listening
unix_grown calls pathname srv none = (none, srv)
unix_grown calls pathname srv (some roomy) = open_unix calls pathname calls.socket roomy

-- The case of `DIME_UNIX`.
add_unix : AddCalls → List ℕ → Listening → Option ℕ × Listening
add_unix calls pathname srv =
    if calls.copy_memory
    then unix_grown calls (sun_path pathname) srv (grow_pathnames calls srv)
    else (none, srv)

-- IPv4 alone, where one socket cannot serve both.
open_ipv4 : AddCalls → Option ℕ → Listening → Option ℕ × Listening
open_ipv4 calls none srv = (none, srv)
open_ipv4 calls (some fd) srv = bind_socket calls fd (note_opened fd srv)

open_ipv6 : AddCalls → Option ℕ → Listening → Option ℕ × Listening
open_ipv6 calls none srv = (none, srv)
open_ipv6 calls (some fd) srv =
    if calls.dual_stack
    then bind_socket calls fd (note_opened fd srv)
    else open_ipv4 calls calls.ipv4_socket (note_closed fd (note_opened fd srv))

-- `switch (protocol)`
pub open_target : AddCalls → Target → Listening → Option ℕ × Listening
open_target calls (unix_at pathname) srv = add_unix calls pathname srv
open_target calls (tcp_at port) srv = open_ipv6 calls calls.socket srv
open_target calls (ws_at port) srv = open_ipv6 calls calls.socket srv
open_target calls (unknown_protocol protocol) srv = (none, srv)

pub protocol_of : Target → Option Protocol
protocol_of (unix_at pathname) = some dime_unix
protocol_of (tcp_at port) = some dime_tcp
protocol_of (ws_at port) = some dime_ws
protocol_of (unknown_protocol protocol) = none

-- The new entry; whether `dime_server_add` returns 0 rather than -1.
register : Option Protocol → Option ℕ × Listening → Bool × Listening
register none (opened, srv) = (false, srv)
register (some protocol) (none, srv) = (false, srv)
register (some protocol) (some fd, srv) =
    (true, record srv { fds = srv.fds ++ (record { fd = fd; protocol = protocol } ∷ []) })

add_grown : AddCalls → Target → Listening → Option Listening → Bool × Listening
add_grown calls target srv none = (false, srv)
add_grown calls target srv (some roomy) =
    register (protocol_of target) (open_target calls target roomy)

-- `dime_server_add`
pub add : AddCalls → Target → Listening → Bool × Listening
add calls target srv = add_grown calls target srv (grow_fds calls srv)
