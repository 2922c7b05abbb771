-- ===== src/Main/Start.antt =====
-- What server/main.c does once it has read its options, with the loop over `select`.
pub mod Sound
pub mod Missing
use dime.Base.{
  ℕ, ◌+◌, ◌%◌, ◌^◌, Bool, true, false, Option, none, some, List, [], ◌∷◌, ltb, ◌==◌, if◌then◌else◌,
  set, get_or, length, map,
}
use dime.World.{World, Client, Outcome, no_serialization}
use dime.Server.Setup.{Listening, InitCalls, AddCalls, Target, unix_at, tcp_at, ws_at, init, add}
use dime.Server.{blank}
use dime.Server.Loop.{Sets, Round, server_loop}
use dime.Main.Text.{Text, same_text, strtok, cut, strtoul}
use dime.Main.Options.{Config, Scanned, scanned, help_asked, misused, overflow, read_options}

-- Where an entry of `listens` points to: an argument, the default, or nowhere (`argv[argc]`).
pub data Place : Type 0 where
  argument : ℕ → Place
  default_place : Place
  null_place : Place

-- How the part of `main` before `dime_server_loop` ends: with what the loop starts from, with 0 after
-- the help, at `usage_err`, with an error of the server, or at an access outside the program's memory.
pub data Started : Type 0 where
  started : Config → Listening → Started
  helped usage_err fatal crashed : Started

-- "unix:/tmp/dime.sock"
abbrev pub listens_default : Text
listens_default =
    b'u' ∷ b'n' ∷ b'i' ∷ b'x' ∷ b':' ∷ b'/' ∷ b't' ∷ b'm' ∷ b'p' ∷ b'/' ∷ b'd' ∷ b'i' ∷ b'm' ∷ b'e'
    ∷ b'.' ∷ b's' ∷ b'o' ∷ b'c' ∷ b'k' ∷ []

abbrev pub unix_text : Text
unix_text = b'u' ∷ b'n' ∷ b'i' ∷ b'x' ∷ []

abbrev pub ipc_text : Text
ipc_text = b'i' ∷ b'p' ∷ b'c' ∷ []

abbrev pub tcp_text : Text
tcp_text = b't' ∷ b'c' ∷ b'p' ∷ []

abbrev pub ws_text : Text
ws_text = b'w' ∷ b's' ∷ []

-- What stands behind the type: one token and no other.
pub only_token : Text → Option Text
only_token rest = elim (strtok b':' rest) [
  | none ↦ none
  | some (info, rest') ↦ elim (strtok b':' rest') [ none ↦ some info | some other ↦ none ]
]

-- `uint16_t port = strtoul(port_s, NULL, 0)`, which must not be 0.
pub port_target : (ℕ → Target) → Text → Option Target
port_target protocol port_s =
    let port = strtoul port_s % 2 ^ 16 in if port == 0 then none else some (protocol port)

unix_target : Option Text → Option Target
unix_target none = none
unix_target (some pathname) = some (unix_at pathname)

net_target : (ℕ → Target) → Option Text → Option Target
net_target protocol none = none
net_target protocol (some port_s) = port_target protocol port_s

-- The choice by type; `none` goes to `usage_err`.
pub typed_target : Text → Text → Option Target
unfolding unix_target net_target port_target only_token
typed_target type rest =
    if same_text type unix_text
    then unix_target (only_token rest)
    else if same_text type ipc_text
    then unix_target (only_token rest)
    else if same_text type tcp_text
    then net_target tcp_at (only_token rest)
    else if same_text type ws_text
    then net_target ws_at (only_token rest)
    else none

-- `strcmp(type, …)` of a type that is NULL is a crash.
pub data Read : Type 0 where
  target_read : Target → Read
  refused no_type : Read

target_of : Option Target → Read
target_of none = refused
target_of (some target) = target_read target

-- One entry's text.
pub read_place : Text → Read
unfolding typed_target target_of
read_place text = elim (strtok b':' text) [
  | none ↦ no_type
  | some (type, rest) ↦ target_of (typed_target type rest)
]

-- How an entry ends.
pub data Placed : Type 0 where
  placed : Listening → Placed
  place_usage place_fatal place_crashed : Placed

enter_target : Bool × Listening → Placed
enter_target (true, srv) = placed srv
enter_target (false, srv) = place_fatal

pub add_read : AddCalls → Read → Listening → Placed
add_read calls (target_read target) srv = enter_target (add calls target srv)
add_read calls refused srv = place_usage
add_read calls no_type srv = place_crashed

-- `strtok` of NULL, when it has left nothing of another text, is NULL or a crash, and so is `type`.
pub add_place : AddCalls → List Text → Place → Listening → Placed
unfolding read_place add_read enter_target
add_place calls argv (argument k) srv = add_read calls (read_place (get_or argv k [])) srv
add_place calls argv default_place srv = add_read calls (read_place listens_default) srv
add_place calls argv null_place srv = place_crashed

-- The arguments after an entry was read, which may stand in `listens` twice.
pub argv_after : List Text → Place → List Text
argv_after argv (argument k) = set argv k (cut b':' (get_or argv k []))
argv_after argv _ = argv

-- The loop over `listens`, with what the system does in each `dime_server_add`.
pub add_places : (ℕ → AddCalls) → Config → List Text → List Place → Listening → Started
add_places calls o argv [] srv = started o srv
add_places calls o argv (p ∷ places) srv = elim (add_place (calls 0) argv p srv) [
  | placed srv' ↦ add_places (λ i. calls (i + 1)) o (argv_after argv p) places srv'
  | place_usage ↦ usage_err
  | place_fatal ↦ fatal
  | place_crashed ↦ crashed
]

place_of : ℕ → ℕ → Place
place_of argc k = if ltb k argc then argument k else null_place

-- `listens`, with the default where it is empty.
pub places_of : ℕ → List ℕ → List Place
unfolding place_of
places_of argc [] = default_place ∷ []
places_of argc (k ∷ ks) = map (place_of argc) (k ∷ ks)

listening_from : (ℕ → AddCalls) → Config → List Text → Option Listening → Started
listening_from calls o argv none = fatal
listening_from calls o argv (some srv) =
    add_places calls o argv (places_of (length argv) o.listens) srv

-- What `main` does with the options.
pub set_up : InitCalls → (ℕ → AddCalls) → List Text → Scanned → Started
unfolding listening_from
set_up init_calls calls argv (scanned o) =
    listening_from calls o argv (init (record init_calls { daemon = o.daemon }))
set_up init_calls calls argv help_asked = helped
set_up init_calls calls argv misused = usage_err
set_up init_calls calls argv overflow = crashed

-- `main` up to `dime_server_loop`; `argv` is the program's name and the arguments.
unfoldable pub start : InitCalls → (ℕ → AddCalls) → Text → List Text → Started
unfolding set_up read_options
start init_calls calls name args = set_up init_calls calls (name ∷ args) (read_options args)

-- A server without clients. Its memory for clients may have held anything.
pub initial : (ℕ → Client) → List Bool → World
unfolding blank
initial before grants = record {
  clients = λ fd. blank (before fd);
  fds = [];
  groups = λ name. record { clnts = []; clnts_cap = 0 };
  names = [];
  messages = λ id. none;
  next_message = 0;
  serialization = no_serialization;
  has_tls = false;
  err = none;
  grants = grants;
}

-- How `main` ends, or where its loop is after some rounds.
pub data Ended : Type 0 where
  not_started : Started → Ended
  looped : Outcome Sets × World → Ended

loop_from : (ℕ → Bool) → List Round → World → Started → Ended
loop_from listened rounds w (started o srv) =
    looped (server_loop (ltb 0 o.verbosity) srv.fds listened rounds w)
loop_from listened rounds w ended = not_started ended

-- `main`, with what the system does in all its calls.
pub main : InitCalls → (ℕ → AddCalls) → (ℕ → Bool) → List Round → World → Text → List Text → Ended
unfolding start loop_from
main init_calls calls listened rounds w name args =
    loop_from listened rounds w (start init_calls calls name args)
