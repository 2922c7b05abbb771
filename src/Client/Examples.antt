-- ===== src/Client/Examples.antt =====
-- A server with two clients in one group, and what the theorems say of it.
use dime.Base.{
  false, ◌++◌, ℕ, ◌≡◌, ◌≢◌, refl, Bool, true, ◌&&◌, Option, none, some, [], ◌∷◌, ◌==◌,
  if◌then◌else◌, arith, replicate,
}
use dime.Deque.{Deque}
use dime.Deque.Valid.{IsValid, contents}
use dime.World.{
  aborted, World, failed, Client, Message, ok, matlab, pickle, status_ok, handshake_reply,
  devices_reply, deliver, update,
}
use dime.World.Logic.{Post}
use dime.World.Granted.{sent_to}
use dime.Client.Groups.{join, leave}
use dime.Client.Groups.Linked.{Linked}
use dime.Client.Groups.Joined.{join-Linked}
use dime.Client.Groups.Parted.{leave-Linked}
use dime.Client.Messages.{broadcast, deliver_one, others, nonneg, limit, kept, dec_refs, send, sync}
use dime.Client.Messages.Deliver.{dnil, dcons, Sent, send-Sent}
use dime.Client.Messages.Broadcast.{broadcast-Sent}
use dime.Client.Messages.Uncounted.{deliver_one_uncounted}
use dime.Client.Messages.Early.{freed_early}
use dime.Client.Messages.Sync.{Deliveries, Synced, sync_lem}
use dime.Client.Session.{tls_negative, pickle_name, serialization_of, handshake, devices}
use dime.Client.Session.Handshake.{agreed, changes, met, handshake_lem}
use dime.Client.Session.Devices.{occupied, devices_lem}

-- A queue of the message at address 0, and an empty one.
abbrev queued : Deque ℕ
queued = record { arr = replicate 16 0; len = 1; cap = 16; begin = 0; stop = 1 }

abbrev none_queued : Deque ℕ
none_queued = record { arr = replicate 16 0; len = 0; cap = 16; begin = 0; stop = 0 }

queued-IsValid : IsValid queued
queued-IsValid = record {
  storage = refl;
  begin_in = ground arith;
  stop_at = refl;
  within = ground arith;
  least = ground arith;
  small = ground arith;
}

none_queued-IsValid : IsValid none_queued
none_queued-IsValid = record {
  storage = refl;
  begin_in = ground arith;
  stop_at = refl;
  within = ground arith;
  least = ground arith;
  small = ground arith;
}

-- The clients 4 and 5, which wait, in the group 1.
abbrev member : ℕ → Bool
member fd = if fd == 4 then true else fd == 5

abbrev server : World
server = record {
  clients = λ fd. record {
    waiting = true;
    groups = if member fd then 1 ∷ [] else [];
    groups_cap = 4;
    sent = [];
    queue = none_queued;
  };
  fds = 4 ∷ 5 ∷ [];
  groups = λ name. record { clnts = if name == 1 then 4 ∷ 5 ∷ [] else []; clnts_cap = 4 };
  names = 1 ∷ [];
  messages = λ id. none;
  next_message = 0;
  serialization = matlab;
  has_tls = true;
  err = none;
  grants = [];
}

server-Linked : Linked server
server-Linked = record {
  both = λ fd name. ground arith;
  once = λ fd name. ground arith;
  known = λ name h. ground arith;
}

join_example : Post Linked Linked (join 4 (some (some 2 ∷ none ∷ [])) server)
join_example = join-Linked 4 (some (some 2 ∷ none ∷ [])) server server-Linked

leave_example : Post Linked Linked (leave 4 (some (some 1 ∷ [])) server)
leave_example = leave-Linked 4 (some (some 1 ∷ [])) server server-Linked

send_example :
    (w' : World) × (send 4 (some 1) (123 ∷ []) [] server ≡ (ok tt, w'))
    × Sent 4 (4 ∷ 5 ∷ []) (record { refs = 0; jsondata = 123 ∷ []; bindata = [] }) server w'
send_example =
    send-Sent server 4 1 (123 ∷ []) [] refl refl (ground arith) (ground arith)
      (dcons refl (dcons refl dnil))
      (λ k h. record { valid = none_queued-IsValid; small = ground arith })

broadcast_example :
    (w' : World) × (broadcast 4 (123 ∷ []) [] server ≡ (ok tt, w'))
    × Sent 4
        (others 4 (4 ∷ 5 ∷ []))
        (record { refs = 0; jsondata = 123 ∷ []; bindata = [] })
        server
        w'
unfolding others
broadcast_example =
    broadcast-Sent server 4 (123 ∷ []) [] refl (ground arith) (ground arith) (dcons refl dnil)
      (λ k h. record { valid = none_queued-IsValid; small = ground arith })

-- The server once a message is queued for the client 4 alone.
abbrev letter : Message
letter = record { refs = 1; jsondata = 123 ∷ []; bindata = [] }

abbrev with_letter : World
with_letter = record server {
  clients = λ fd. record (server.clients fd) { queue = queued };
  messages = λ id. if id == 0 then some letter else none;
}

abbrev left_over : ℕ → Option Message
left_over = update with_letter.messages 0 (kept (dec_refs letter))

sync_example :
    (cs : ℕ → Client) × (sync 4 (some (nonneg 3)) with_letter
      ≡ (ok tt, sent_to 4 status_ok (record with_letter { clients = cs; messages = left_over })))
    × Synced 3 (deliver (123 ∷ []) [] ∷ []) (with_letter.clients 4) (cs 4)
    × ((k : ℕ) → k ≢ 4 → cs k ≡ with_letter.clients k)
unfolding Deliveries limit
sync_example =
    sync_lem with_letter 4 (nonneg 3) (deliver (123 ∷ []) [] ∷ []) left_over refl queued-IsValid
      (letter, refl, [], refl, (refl, refl))

handshake_example :
    (cs : ℕ → Client) × (handshake 5 (some (pickle_name, true)) tls_negative server ≡ (
      failed,
      sent_to 5
          (handshake_reply (agreed matlab pickle) (true && true))
          (record server { clients = cs; serialization = agreed matlab pickle }),
    ))
    × ((k : ℕ) → cs k ≡ met 5 server (changes matlab pickle) k)
unfolding others serialization_of
handshake_example =
    handshake_lem server refl 5 (dcons refl dnil) pickle_name pickle true tls_negative refl

devices_example :
    devices 4 server ≡ (ok tt, sent_to 4 (devices_reply (occupied server.groups (1 ∷ []))) server)
devices_example = devices_lem server 4 refl

-- The server where memory is short twice.
abbrev short_server : World
short_server = record server {
  messages = λ id. if id == 0 then some letter else none;
  grants = false ∷ false ∷ [];
}

deliver_one_example :
    (w' : World) × (deliver_one 4 0 5 short_server ≡ (failed, w'))
    × (contents 0 (w'.clients 5).queue ≡ contents 0 none_queued ++ (0 ∷ []))
    × ((w'.clients 5).waiting ≡ true)
    × (w'.messages ≡ short_server.messages)
deliver_one_example =
    deliver_one_uncounted short_server 4 0 5 [] refl refl none_queued-IsValid (ground arith)
      (ground arith)

-- The message counts one reference, and stands in the queues of both clients.
freed_early_example :
    (w₁ : World) × (w₂ : World) × (sync 4 (some (nonneg 3)) with_letter ≡ (ok tt, w₁))
    × (sync 5 (some (nonneg 1)) w₁ ≡ (aborted, w₂))
freed_early_example =
    freed_early with_letter 4 5 0 2 0 [] letter refl (ground arith) queued-IsValid queued-IsValid
      refl refl refl refl
