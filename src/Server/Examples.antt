-- ===== src/Server/Examples.antt =====
-- A server that listens on the descriptor 3, through three rounds of its loop.
use dime.Base.{
  ◌≢◌, ℕ, ◌==◌, ◌++◌, ◌≡◌, refl, Bool, true, false, none, some, List, [], ◌∷◌, arith, if◌then◌else◌,
  replicate, not, ◌||◌, ltb, length,
}
use dime.World.{Reply, ok, deliver, status_ok, World, no_serialization, elem}
use dime.Deque.Valid.{IsValid, contents}
use dime.Client.Messages.{negative}
use dime.Server.Trusted.Delivered.{delivered_lem}
use dime.World.After.{End}
use dime.Request.{Request, join_request, send_request, sync_request, dispatch}
use dime.Server.{dime_tcp, ServerFd, Io}
use dime.Server.Loop.{Round, server_loop}
use dime.Server.Loop.Sound.{FreshAll, server_loop-Sound}
use dime.Server.Keys.{hash_fd, hash_fd_differ}
use dime.Server.Sound.{Sound}
use dime.Server.Sound.Visits.{Fresh}
use dime.Client.Messages.Totals.{places, Covered}
use dime.Client.Messages.Counted.{Counted}

abbrev pub listener : List ServerFd
listener = record { fd = 3; protocol = dime_tcp } ∷ []

empty-IsValid :
    IsValid {A = ℕ} (record { arr = replicate 16 0; len = 0; cap = 16; begin = 0; stop = 0 })
empty-IsValid = record {
  storage = refl;
  begin_in = ground arith;
  stop_at = refl;
  within = ground arith;
  least = ground arith;
  small = ground arith;
}

-- A server with no clients.
abbrev pub idle : World
idle = record {
  clients = λ fd. record {
    waiting = false;
    groups = [];
    groups_cap = 4;
    sent = [];
    queue = record { arr = replicate 16 0; len = 0; cap = 16; begin = 0; stop = 0 };
  };
  fds = [];
  groups = λ name. record { clnts = []; clnts_cap = 4 };
  names = [];
  messages = λ id. none;
  next_message = 0;
  serialization = no_serialization;
  has_tls = false;
  err = none;
  grants = [];
}

pub idle-Sound : Sound idle
idle-Sound = record {
  linked = record {
    both = λ fd name. refl;
    once = λ fd name. ground arith;
    known = λ name h. refl;
  };
  members_open = λ fd h. refl;
  listed_once = λ fd. ground arith;
}

-- A descriptor at which something happens: a connection on the one that listens, these requests on
-- another.
abbrev pub busy : Bool → List Request → Bool → Io
busy received requests malformed = record {
  readable = true;
  writable = true;
  accepted =
      λ open_fds. if elem 4 open_fds || not (ltb (length open_fds) 100) then none else some 4;
  upgraded = true;
  received = received;
  requests = requests;
  malformed = malformed;
  written = true;
}

pub busy-Fresh :
    (received : Bool) (requests : List Request) (malformed : Bool)
    → Fresh (busy received requests malformed)
busy-Fresh received requests malformed = λ open_fds fd e. ground arith

abbrev serving : Bool → List Request → Round
serving received requests = record {
  selected = true;
  io = λ i. busy received requests false;
  unsent = λ i. true;
}

-- A client comes, joins a group and sends to it, and hangs up.
abbrev rounds : List Round
rounds =
    serving true []
    ∷ serving true (join_request (some (some 1 ∷ [])) ∷ send_request (some 1) (123 ∷ []) [] ∷ [])
    ∷ serving false []
    ∷ []

rounds-FreshAll : FreshAll rounds
unfolding FreshAll
rounds-FreshAll = (
  λ i. busy-Fresh true [] false,
  (
    λ i.
        busy-Fresh true
          (join_request (some (some 1 ∷ [])) ∷ send_request (some 1) (123 ∷ []) [] ∷ []) false,
    (λ i. busy-Fresh false [] false, tt),
  ),
)

server_loop_example : End Sound Sound (server_loop false listener (λ i. true) rounds idle)
server_loop_example =
    server_loop-Sound false listener (λ i. true) rounds idle rounds-FreshAll idle-Sound

-- The clients 4 and 5 in the group 1.
abbrev pub with_group : World
with_group = record idle {
  clients =
      λ fd. record (idle.clients fd) { groups = if (fd == 4) || (fd == 5) then 1 ∷ [] else [] };
  fds = 4 ∷ 5 ∷ [];
  groups = λ name. record { clnts = if name == 1 then 4 ∷ 5 ∷ [] else []; clnts_cap = 4 };
  names = 1 ∷ [];
}

pub with_group-Sound : Sound with_group
with_group-Sound = record {
  linked = record {
    both = λ fd name. ground arith;
    once = λ fd name. ground arith;
    known = λ name h. ground arith;
  };
  members_open = λ fd h. ground arith;
  listed_once = λ fd. ground arith;
}

pub with_group-Counted : Counted with_group
unfolding places Covered
with_group-Counted = record {
  granted = refl;
  valid = λ k. empty-IsValid;
  few = λ k. ground arith;
  roomy = λ k. ground arith;
  enough = λ id. refl;
  unused = λ id h. refl;
  few_fds = ground arith;
}

delivered_example :
    (w₁ : World) × (w₂ : World) × (dispatch 4 (send_request (some 1) (123 ∷ []) (7 ∷ [])) with_group
      ≡ (ok tt, w₁))
    × (dispatch 5 (sync_request (some negative)) w₁ ≡ (ok tt, w₂))
    × ((earlier : List Reply) × ((w₂.clients 5).sent
          ≡ [] ++ (earlier ++ (deliver (123 ∷ []) (7 ∷ []) ∷ status_ok ∷ []))))
    × (contents 0 (w₂.clients 5).queue ≡ [])
delivered_example =
    delivered_lem 4 5 1 0 (123 ∷ []) (7 ∷ []) with_group
      ((with_group-Counted, ground arith), (with_group-Sound, refl)) (ground arith) refl refl

hash_fd_example : hash_fd 4 ≢ hash_fd 5
hash_fd_example = hash_fd_differ 4 5 (ground arith) (ground arith) (ground arith)
