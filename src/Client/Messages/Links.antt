-- ===== src/Client/Messages/Links.antt =====
-- `dime_client_send`, `_broadcast`, `_sync` and `_wait`, and what depends on the links and the
-- tables alone.
use dime.Base.{
  ℕ, zero, suc, refl, Bool, true, false, not, ◌&&◌, Option, none, some, List, [], ◌∷◌, ltb, leb,
  ◌==◌, length,
}
use dime.Deque.{Deque}
use dime.Deque
use dime.World.{
  World, Message, M, ◌>>◌, alloc, push, require, modify_client, json_parsing, no_such_group, system,
  status_ok, pending, deliver,
}
use dime.World.Links.{
  SameLinks, Stable, Calm, Stable-Calm, alloc-Keeps, push-Keeps, require-Keeps, modify_client-Keeps,
}
use dime.World.Logic.{Keeps, bind-Leads, then-Leads, if-Leads, look-Leads}
use dime.World.After.{
  End, Ends, Holds, bind-Ends, then-Ends, if-Ends, pure-Ends, abort-Ends, look-Ends, alloc-Holds,
  push-Holds, require-alloc-Holds, require-push-Holds, fail-Holds, stop-Holds, set_client-Holds,
  Leads-Ends,
}
use dime.Client.Groups.{get_client}
use dime.Client.Groups.Frame.{get_client-Ends, get_group-Ends, is_known-Ends}
use dime.Client.Messages.{
  JsonInt, limit, checked, get_message, put_message, new_message, add_ref, free_unused, drop_ref,
  set_queue, set_waiting, needs_room, put_queue, queue_right, queue_left, notify, deliver_one,
  deliver_all, assert_referenced, send_group, send, get_fds, others, broadcast, sync_message,
  sync_round, sync_loop, sync, wait,
}

pub get_fds-Ends : {P E : World → Type 0} → Ends P P E get_fds
unfolding get_fds
get_fds-Ends = look-Ends (λ w. w.fds)

checked-End : (P E : World → Type 0) (w : World) (o : Option Message) → P w → End P E (checked w o)
unfolding checked
checked-End P E w none p = tt
checked-End P E w (some m) p = p

get_message-Ends : {P E : World → Type 0} (id : ℕ) → Ends P P E (get_message id)
unfolding get_message
get_message-Ends {P = P} {E} id = record { out = λ w p. checked-End P E w (w.messages id) p }

messages-SameLinks :
    (w : World) (messages : ℕ → Option Message) (n : ℕ)
    → SameLinks w (record w { messages = messages; next_message = n })
messages-SameLinks w messages n = record {
  groups_of = λ k. refl;
  clnts_of = λ k. refl;
  same_names = refl;
  same_fds = refl;
  stays_granted = λ g. g;
}

module _ {P : World → Type 0} (c : Calm P) where
  notice-Keeps : (fd n : ℕ) → Keeps P (require fd alloc >> require fd (push fd (pending n)))
  notice-Keeps fd n =
      then-Leads (require-Keeps c fd (alloc-Keeps c))
        (require-Keeps c fd (push-Keeps c fd (pending n)))

  set_waiting-Keeps : (fd : ℕ) (b : Bool) → Keeps P (modify_client fd (set_waiting b))
  unfolding set_waiting
  set_waiting-Keeps fd b = modify_client-Keeps c fd _ (λ c. refl) (λ c. refl)

  pub wait-Keeps : (fd : ℕ) → Keeps P (wait fd)
  unfolding wait get_client
  wait-Keeps fd =
      bind-Leads (look-Leads (λ w. w.clients fd))
        λ c. if-Leads (ltb 0 c.queue.len) (notice-Keeps fd c.queue.len) (set_waiting-Keeps fd true)

module _ {P : World → Type 0} (s : Stable P) where
  calm : Calm P
  calm = Stable-Calm s

  put_message-Ends :
      {E : World → Type 0} (id : ℕ) (msg : Option Message) → Ends P P E (put_message id msg)
  unfolding put_message
  put_message-Ends id msg = record { out = λ w. s.move w _ (messages-SameLinks w _ _) }

  new_message-Holds : (jsondata bindata : List ℕ) → Holds P (new_message jsondata bindata)
  unfolding new_message
  new_message-Holds jsondata bindata = record { out = λ w. s.move w _ (messages-SameLinks w _ _) }

  add_ref-Holds : (id : ℕ) → Holds P (add_ref id)
  unfolding add_ref
  add_ref-Holds id = bind-Ends (get_message-Ends id) (λ m. put_message-Ends id _)

  free_unused-Holds : (id : ℕ) → Holds P (free_unused id)
  unfolding free_unused
  free_unused-Holds id = bind-Ends (get_message-Ends id) (λ m. put_message-Ends id _)

  pub drop_ref-Ends : {E : World → Type 0} (id : ℕ) → Ends P P E (drop_ref id)
  unfolding drop_ref
  drop_ref-Ends id = bind-Ends (get_message-Ends id) (λ m. put_message-Ends id _)

  set_queue-Holds : (fd : ℕ) (q : Deque ℕ) → Holds P (modify_client fd (set_queue q))
  unfolding set_queue
  set_queue-Holds fd q = set_client-Holds s fd _ (λ c. refl)

  needs_room-Holds : (q : Deque ℕ) → Holds P (needs_room q)
  unfolding needs_room
  needs_room-Holds q = if-Ends (leb q.cap q.len) (alloc-Holds calm) (pure-Ends true)

  put_queue-Holds : (fd : ℕ) (q : Option (Deque ℕ)) → Holds P (put_queue fd q)
  unfolding put_queue
  put_queue-Holds fd none = pure-Ends false
  put_queue-Holds fd (some q) = then-Ends (set_queue-Holds fd q) (pure-Ends true)

  queue_right-Holds : (fd id : ℕ) → Holds P (queue_right fd id)
  unfolding queue_right
  queue_right-Holds fd id =
      bind-Ends (get_client-Ends fd)
        λ c. bind-Ends (needs_room-Holds c.queue) λ granted. put_queue-Holds fd _

  queue_left-Holds : (fd id : ℕ) → Holds P (queue_left fd id)
  unfolding queue_left
  queue_left-Holds fd id =
      bind-Ends (get_client-Ends fd)
        λ c. bind-Ends (needs_room-Holds c.queue) λ granted. put_queue-Holds fd _

  notify-Holds : (fd : ℕ) → Holds P (notify fd)
  unfolding notify
  notify-Holds fd = bind-Ends (get_client-Ends fd) λ c.
      if-Ends c.waiting
        (then-Ends (Leads-Ends (notice-Keeps calm fd c.queue.len))
          (Leads-Ends (set_waiting-Keeps calm fd false)))
        (pure-Ends tt)

  deliver_one-Holds : (sender id receiver : ℕ) → Holds P (deliver_one sender id receiver)
  unfolding deliver_one
  deliver_one-Holds sender id receiver = bind-Ends (queue_right-Holds receiver id) λ queued.
      if-Ends queued (then-Ends (notify-Holds receiver) (add_ref-Holds id))
        (then-Ends (free_unused-Holds id) (fail-Holds calm sender system))

  deliver_all-Holds : (sender id : ℕ) (fds : List ℕ) → Holds P (deliver_all sender id fds)
  unfolding deliver_all
  deliver_all-Holds sender id [] = pure-Ends tt
  deliver_all-Holds sender id (fd ∷ fds) =
      then-Ends (deliver_one-Holds sender id fd) (deliver_all-Holds sender id fds)

  assert_referenced-Holds : (id : ℕ) → Holds P (assert_referenced id)
  unfolding assert_referenced
  assert_referenced-Holds id =
      bind-Ends (get_message-Ends id) (λ m. if-Ends (m.refs == 0) abort-Ends (pure-Ends tt))

  send_group-Holds :
      (fd : ℕ) (receivers jsondata bindata : List ℕ)
      → Holds P (send_group fd receivers jsondata bindata)
  unfolding send_group
  send_group-Holds fd receivers jsondata bindata = then-Ends (require-alloc-Holds calm fd) (
      then-Ends (require-alloc-Holds calm fd) (
        bind-Ends (new_message-Holds jsondata bindata) λ id.
          then-Ends (deliver_all-Holds fd id receivers)
            (then-Ends (assert_referenced-Holds id) (require-push-Holds calm fd fd status_ok))))

  pub send-Holds :
      (fd : ℕ) (name : Option ℕ) (jsondata bindata : List ℕ)
      → Holds P (send fd name jsondata bindata)
  unfolding send
  send-Holds fd none jsondata bindata = fail-Holds calm fd json_parsing
  send-Holds fd (some name) jsondata bindata = bind-Ends (is_known-Ends name) λ known.
      bind-Ends (get_group-Ends name) λ g.
        if-Ends (known && not (length g.clnts == 0)) (send_group-Holds fd g.clnts jsondata bindata)
          (fail-Holds calm fd (no_such_group name))

  pub broadcast-Holds :
      (fd : ℕ) (jsondata bindata : List ℕ) → Holds P (broadcast fd jsondata bindata)
  unfolding broadcast
  broadcast-Holds fd jsondata bindata = then-Ends (require-alloc-Holds calm fd) (
      then-Ends (require-alloc-Holds calm fd) (
        bind-Ends (new_message-Holds jsondata bindata) λ id. bind-Ends get_fds-Ends λ fds.
          then-Ends (deliver_all-Holds fd id (others fd fds))
            (then-Ends (free_unused-Holds id) (require-push-Holds calm fd fd status_ok))))

  sync_message-Holds : (fd id : ℕ) → Holds P (sync_message fd id)
  unfolding sync_message
  sync_message-Holds fd id = bind-Ends (get_message-Ends id) λ msg.
      bind-Ends (push-Holds calm fd (deliver msg.jsondata msg.bindata)) λ sent.
        if-Ends sent (drop_ref-Ends id) (then-Ends (queue_left-Holds fd id) (stop-Holds calm))

  sync_round-Holds :
      (fd : ℕ) (more : M (Unit {0})) (next : Option ℕ × Deque ℕ)
      → Holds P more
      → Holds P (sync_round fd more next)
  unfolding sync_round
  sync_round-Holds fd more (none, q) h = pure-Ends tt
  sync_round-Holds fd more (some id, q) h =
      then-Ends (then-Ends (set_queue-Holds fd q) (sync_message-Holds fd id)) h

  sync_loop-Holds : (n fd : ℕ) → Holds P (sync_loop n fd)
  unfolding sync_loop
  sync_loop-Holds zero fd = pure-Ends tt
  sync_loop-Holds (suc m) fd =
      bind-Ends (get_client-Ends fd)
        λ c. sync_round-Holds fd (sync_loop m fd) (Deque.popl 0 c.queue) (sync_loop-Holds m fd)

  pub sync-Holds : (fd : ℕ) (n : Option JsonInt) → Holds P (sync fd n)
  unfolding sync
  sync-Holds fd none = stop-Holds calm
  sync-Holds fd (some n) =
      then-Ends (sync_loop-Holds (limit n) fd) (require-push-Holds calm fd fd status_ok)
