-- ===== src/Client/Messages.antt =====
-- `dime_client_send`, `_broadcast`, `_sync` and `_wait`: messages are queued by reference, counted,
-- and freed with their last reference.
pub mod Queue
pub mod Links
pub mod Totals
pub mod Counted
pub mod Safe
pub mod Handed
pub mod Owing
pub mod Told
pub mod Early
pub mod Sync
pub mod Broadcast
pub mod Uncounted
pub mod Deliver
use dime.Base.{
  ℕ, zero, suc, ◌+◌, ◌-◌, ◌%◌, ◌^◌, Bool, true, false, not, ◌&&◌, Option, none, some, List, [], ◌∷◌,
  ◌++◌, ltb, leb, ◌==◌, if◌then◌else◌, length, size_max,
}
use dime.Deque.{Deque}
use dime.Deque
use dime.World.{
  World, Client, Message, Outcome, aborted, M, pure, ◌>>=◌, ◌>>◌, update, elem, alloc, take_grant,
  modify_client, push, fail, abort, stop, require, ok, json_parsing, no_such_group, system,
  status_ok, pending, deliver,
}
use dime.Client.Groups.{get_client, get_group, is_known}

-- `json_int_t`, as `dime_client_sync` tells its values apart
pub data JsonInt : Type 0 where
  nonneg : ℕ → JsonInt
  negative : JsonInt

-- `(size_t)(n < 0 ? -1 : n)`
unfoldable pub limit : JsonInt → ℕ
limit (nonneg n) = n
limit negative = size_max

-- An access to a message that is not there, or is freed, ends the handler.
checked : World → Option Message → Outcome Message × World
checked w none = (aborted, w)
checked w (some m) = (ok m, w)

get_message : ℕ → M Message
get_message id w = checked w (w.messages id)

put_message : ℕ → Option Message → M (Unit {0})
put_message id msg w = (ok tt, record w { messages = update w.messages id msg })

-- A new message with no reference yet.
new_message : List ℕ → List ℕ → M ℕ
new_message jsondata bindata w = (
  ok w.next_message,
  record w {
    messages =
        update w.messages w.next_message
          (some (record { refs = 0; jsondata = jsondata; bindata = bindata }));
    next_message = w.next_message + 1;
  },
)

-- `refs++` and `refs--` on an `unsigned int`
inc_refs : Message → Message
inc_refs msg = record msg { refs = (msg.refs + 1) % 2 ^ 32 }

unfoldable pub dec_refs : Message → Message
dec_refs msg = record msg { refs = (msg.refs + 2 ^ 32 - 1) % 2 ^ 32 }

-- A message that is left with no reference is freed.
unfoldable pub kept : Message → Option Message
kept msg = if msg.refs == 0 then none else some msg

-- `msg->refs++;`
add_ref : ℕ → M (Unit {0})
add_ref id = do m ← get_message id; put_message id (some (inc_refs m))

-- `if (msg->refs == 0) { free(...); }`
free_unused : ℕ → M (Unit {0})
free_unused id = do m ← get_message id; put_message id (kept m)

-- `msg->refs--;`, and the same.
pub drop_ref : ℕ → M (Unit {0})
drop_ref id = do m ← get_message id; put_message id (kept (dec_refs m))

set_queue : Deque ℕ → Client → Client
set_queue q c = record c { queue = q }

set_waiting : Bool → Client → Client
set_waiting b c = record c { waiting = b }

-- `dime_deque_pushr` and `dime_deque_pushl` on a client's queue, which ask for memory when it is full.
needs_room : Deque ℕ → M Bool
needs_room q = if leb q.cap q.len then alloc else pure true

put_queue : ℕ → Option (Deque ℕ) → M Bool
put_queue fd none = pure false
put_queue fd (some q) = modify_client fd (set_queue q) >> pure true

queue_right : ℕ → ℕ → M Bool
queue_right fd id = do
  c ← get_client fd
  granted ← needs_room c.queue
  put_queue fd (Deque.pushr 0 granted 0 c.queue id)

queue_left : ℕ → ℕ → M Bool
queue_left fd id = do
  c ← get_client fd
  granted ← needs_room c.queue
  put_queue fd (Deque.pushl 0 granted 0 c.queue id)

-- A client that waits is told how much its queue holds.
notify : ℕ → M (Unit {0})
notify fd = do
  c ← get_client fd
  if c.waiting
      then (require fd alloc >> require fd (push fd (pending c.queue.len)))
        >> modify_client fd (set_waiting false)
      else pure tt

-- The body of the loop of `dime_client_send` and of `dime_client_broadcast`: one reference for one
-- receiver.
pub deliver_one : ℕ → ℕ → ℕ → M (Unit {0})
deliver_one sender id receiver = do
  queued ← queue_right receiver id
  if queued then notify receiver >> add_ref id else free_unused id >> fail sender system

pub deliver_all : ℕ → ℕ → List ℕ → M (Unit {0})
deliver_all sender id [] = pure tt
deliver_all sender id (fd ∷ fds) = deliver_one sender id fd >> deliver_all sender id fds

-- `assert(msg->refs > 0);`, on what is left of the message
assert_referenced : ℕ → M (Unit {0})
assert_referenced id = do m ← get_message id; if m.refs == 0 then abort else pure tt

-- What `dime_client_send` does once it has found the group.
send_group : ℕ → List ℕ → List ℕ → List ℕ → M (Unit {0})
send_group fd receivers jsondata bindata = do
  require fd alloc
  require fd alloc
  id ← new_message jsondata bindata
  deliver_all fd id receivers
  assert_referenced id
  require fd (push fd status_ok)

-- `dime_client_send`, with the group's name, and the request's text and binary part.
pub send : ℕ → Option ℕ → List ℕ → List ℕ → M (Unit {0})
send fd none jsondata bindata = fail fd json_parsing
send fd (some name) jsondata bindata = do
  known ← is_known name
  g ← get_group name
  if known && not (length g.clnts == 0)
      then send_group fd g.clnts jsondata bindata
      else fail fd (no_such_group name)

unfoldable pub get_fds : M (List ℕ)
get_fds w = (ok w.fds, w)

-- `clnt->fd != other->fd`
unfoldable pub others : ℕ → List ℕ → List ℕ
others fd [] = []
others fd (k ∷ ks) = if fd == k then others fd ks else k ∷ others fd ks

-- `dime_client_broadcast`
pub broadcast : ℕ → List ℕ → List ℕ → M (Unit {0})
broadcast fd jsondata bindata = do
  require fd alloc
  require fd alloc
  id ← new_message jsondata bindata
  fds ← get_fds
  deliver_all fd id (others fd fds)
  free_unused id
  require fd (push fd status_ok)

-- What a round of the loop of `dime_client_sync` does with the message that it has taken from the
-- queue: it is put back where it cannot be sent.
sync_message : ℕ → ℕ → M (Unit {0})
sync_message fd id = do
  msg ← get_message id
  sent ← push fd (deliver msg.jsondata msg.bindata)
  if sent then drop_ref id else queue_left fd id >> stop

-- One round: `more` stands for the rounds that are left.
sync_round : ℕ → M (Unit {0}) → Option ℕ × Deque ℕ → M (Unit {0})
sync_round fd more (none, q) = pure tt
sync_round fd more (some id, q) = (modify_client fd (set_queue q) >> sync_message fd id) >> more

-- The loop of `dime_client_sync`, for the rounds that are left.
sync_loop : ℕ → ℕ → M (Unit {0})
sync_loop zero fd = pure tt
sync_loop (suc m) fd = do c ← get_client fd; sync_round fd (sync_loop m fd) (Deque.popl 0 c.queue)

-- `dime_client_sync`. Where the number cannot be read it returns -1 with no reply.
pub sync : ℕ → Option JsonInt → M (Unit {0})
sync fd none = stop
sync fd (some n) = sync_loop (limit n) fd >> require fd (push fd status_ok)

-- `dime_client_wait`
pub wait : ℕ → M (Unit {0})
wait fd = do
  c ← get_client fd
  if ltb 0 c.queue.len
      then require fd alloc >> require fd (push fd (pending c.queue.len))
      else modify_client fd (set_waiting true)
