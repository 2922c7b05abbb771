-- ===== src/Client/Messages/Queue.antt =====
-- What sending a message does to its receivers, where memory is granted.
use dime.Base.{
  ℕ, ◌≤◌, ◌⊎◌, ◌+◌, ◌*◌, ◌%◌, ◌<◌, ◌^◌, ◌≡◌, ◌≢◌, refl, ap, subst, sym, ◌∙◌, true, false, some,
  List, [], ◌∷◌, ◌++◌, arith, if◌then◌else◌, leb, length, Bool-cases, inl, inr, append-nil,
  length-append,
}
use dime.Deque.{Deque}
use dime.Deque
use dime.Deque.Valid.{IsValid, contents, length-contents}
use dime.Deque.Push.{pushr_lem, cap-pushr}
use dime.World.{
  World, Client, Message, ok, pure, ◌>>=◌, ◌>>◌, update, elem, modify_client, pending, add_sent,
}
use dime.World.Granted.{sent_to, alloc_granted, require-alloc, require-push}
use dime.Client.Groups.{get_client}
use dime.Client.Messages.{
  get_message, put_message, checked, inc_refs, add_ref, set_queue, set_waiting, needs_room,
  put_queue, queue_right, notify, deliver_one,
}

-- A queue that can take one more entry.
pub record Ready (c : Client) : Type 0 where
  pub valid : IsValid c.queue
  pub small : 3 * c.queue.cap < 2 ^ 64

-- The world with one client changed.
abbrev pub with_client : ℕ → Client → World → World
with_client fd c w = record w { clients = update w.clients fd c }

-- A client that waits is told what its queue holds, and waits no more.
abbrev told : Client → Client
told c = if c.waiting then set_waiting false (add_sent (pending c.queue.len) c) else c

module _ (w : World) (g : w.grants ≡ []) (fd : ℕ) where
  needs_room-granted : (q : Deque ℕ) → needs_room q w ≡ (ok true, w)
  unfolding needs_room pure
  needs_room-granted q = elim (Bool-cases (leb q.cap q.len)) [
    | inl is_full ↦ rw (is_full, alloc_granted w g)
    | inr free ↦ rw free
  ]

  queue_right-granted :
      (id : ℕ) (q : Deque ℕ)
      → Deque.pushr 0 true 0 (w.clients fd).queue id ≡ some q
      → queue_right fd id w ≡ (ok true, with_client fd (set_queue q (w.clients fd)) w)
  unfolding queue_right put_queue get_client modify_client pure ◌>>=◌ ◌>>◌
  queue_right-granted id q e = rw (needs_room-granted (w.clients fd).queue, e)

  notify-waiting :
      (w.clients fd).waiting ≡ true
      → let s = sent_to fd (pending (w.clients fd).queue.len) w in
        notify fd w ≡ (ok tt, with_client fd (set_waiting false (s.clients fd)) s)
  unfolding notify get_client modify_client pure ◌>>=◌ ◌>>◌
  notify-waiting waits =
      simp (waits, require-alloc w g fd, require-push w g fd fd (pending (w.clients fd).queue.len))

  notify-busy : (w.clients fd).waiting ≡ false → notify fd w ≡ (ok tt, w)
  unfolding notify get_client pure ◌>>=◌
  notify-busy busy = rw busy

-- What a client is like once it has been sent the message at `id`.
pub record Received (id : ℕ) (c c' : Client) : Type 0 where
  pub valid : IsValid c'.queue
  pub queued : contents 0 c'.queue ≡ contents 0 c.queue ++ (id ∷ [])
  pub waits_no_more : c'.waiting ≡ false
  pub told_if_waiting :
      c'.sent ≡ c.sent ++ (if c.waiting then pending (c.queue.len + 1) ∷ [] else [])
  pub same_groups : (c'.groups ≡ c.groups) × (c'.groups_cap ≡ c.groups_cap)
  pub growth : (c'.queue.cap ≤ c.queue.cap) ⊎ (2 * c'.queue.cap ≤ 3 * c.queue.len)

len-queue :
    (q q' : Deque ℕ) (id : ℕ) → contents 0 q' ≡ contents 0 q ++ (id ∷ []) → q'.len ≡ q.len + 1
len-queue q q' id e = omega (
  arith,
  ap length e,
  length-append {0} (contents 0 q) (id ∷ []),
  length-contents 0 q,
  length-contents 0 q',
)

pub update_same : {A : Type 0} (f : ℕ → A) (i : ℕ) (a : A) → update f i a i ≡ a
update_same f i a = ground arith

pub update_other : {A : Type 0} (f : ℕ → A) (i : ℕ) (a : A) (k : ℕ) → k ≢ i → update f i a k ≡ f k
update_other f i a k n = ground arith

elem_one : (k i : ℕ) → elem k (i ∷ []) ≡ true → i ≡ k
elem_one k i e = ground arith

module _ (w : World) (g : w.grants ≡ []) (fd : ℕ) where
  notify-told :
      (cs : ℕ → Client) × (notify fd w ≡ (ok tt, record w { clients = cs }))
      × (cs fd ≡ told (w.clients fd))
      × ((k : ℕ) → k ≢ fd → cs k ≡ w.clients k)
  notify-told = elim (Bool-cases (w.clients fd).waiting) [
    | inl waits ↦ (_, notify-waiting w g fd waits, ground arith, λ k n. ground arith)
    | inr busy ↦ (w.clients, notify-busy w g fd busy, ground arith, λ _ _. refl)
  ]

told-Received :
    (id : ℕ) (q : Deque ℕ) (c : Client)
    → IsValid q
    → contents 0 q ≡ contents 0 c.queue ++ (id ∷ [])
    → (q.cap ≤ c.queue.cap) ⊎ (2 * q.cap ≤ 3 * c.queue.len)
    → Received id c (told (set_queue q c))
unfolding set_queue set_waiting add_sent
told-Received id q c v e grew = elim (Bool-cases c.waiting) [
  | inl waits ↦ record {
    valid = rw waits v;
    queued = rw waits e;
    waits_no_more = rw waits refl;
    told_if_waiting = rw (waits, len-queue c.queue q id e) refl;
    same_groups = rw waits (refl, refl);
    growth = rw waits grew;
  }
  | inr busy ↦ record {
    valid = rw busy v;
    queued = rw busy e;
    waits_no_more = rw busy refl;
    told_if_waiting = rw busy (sym (append-nil c.sent));
    same_groups = rw busy (refl, refl);
    growth = rw busy grew;
  }
]

module _ (w : World) (g : w.grants ≡ []) (id : ℕ) (m : Message)
    (here : w.messages id ≡ some m) where
  add_ref-granted :
      (cs : ℕ → Client)
      → add_ref id (record w { clients = cs })
        ≡ (ok tt, record w { clients = cs; messages = update w.messages id (some (inc_refs m)) })
  unfolding add_ref get_message put_message checked ◌>>=◌
  add_ref-granted cs = rw here

  deliver_one-granted :
      (sender receiver : ℕ) (q : Deque ℕ)
      → Deque.pushr 0 true 0 (w.clients receiver).queue id ≡ some q
      → (cs : ℕ → Client)
      → notify receiver (with_client receiver (set_queue q (w.clients receiver)) w)
        ≡ (ok tt, record w { clients = cs })
      → deliver_one sender id receiver w
        ≡ (ok tt, record w { clients = cs; messages = update w.messages id (some (inc_refs m)) })
  unfolding deliver_one ◌>>=◌ ◌>>◌
  deliver_one-granted sender receiver q pushed cs notified =
      rw (queue_right-granted w g receiver id q pushed, notified, add_ref-granted cs)

-- What a delivery leaves as it was.
pub record Served (id : ℕ) (receivers : List ℕ) (m : Message) (w w' : World) : Type 0 where
  pub told_all : (k : ℕ) → elem k receivers ≡ true → Received id (w.clients k) (w'.clients k)
  pub others_same : (k : ℕ) → elem k receivers ≡ false → w'.clients k ≡ w.clients k
  pub counted : w'.messages id ≡ some (record m { refs = (m.refs + length receivers) % 2 ^ 32 })
  pub other_messages : (k : ℕ) → k ≢ id → w'.messages k ≡ w.messages k
  pub rest : w' ≡ record w { clients = w'.clients; messages = w'.messages }

module _ (w : World) (g : w.grants ≡ []) (id : ℕ) (m : Message)
    (here : w.messages id ≡ some m) where
  pub deliver_one-Served :
      (sender receiver : ℕ)
      → Ready (w.clients receiver)
      → (w' : World) × (deliver_one sender id receiver w ≡ (ok tt, w'))
        × Served id (receiver ∷ []) m w w'
  unfolding inc_refs
  deliver_one-Served sender receiver r =
      elim (pushr_lem 0 true 0 (w.clients receiver).queue id r.valid r.small) [
        | inr (e, f, g) ↦ cc
        | inl (q, pushed, v, e, room) ↦
            let c₁ = set_queue q (w.clients receiver) in
            let (cs, told_one, at_receiver, others_kept) =
              notify-told (with_client receiver c₁ w) g receiver in
            let at_receiver : cs receiver ≡ told c₁ =
              at_receiver ∙ ap told (update_same w.clients receiver c₁) in
            let received =
              told-Received id q (w.clients receiver) v e
                (cap-pushr 0 true 0 (w.clients receiver).queue q id pushed) in
            (
              _,
              deliver_one-granted w g id m here sender receiver q pushed cs told_one,
              record {
                told_all = λ k at_k.
                    subst (λ i. Received id (w.clients i) (cs i)) (elem_one k receiver at_k)
                      (subst (Received id (w.clients receiver)) (sym at_receiver) received);
                others_same = λ k at_k.
                    let n : k ≢ receiver = ground arith in
                    others_kept k n ∙ update_other w.clients receiver c₁ k n;
                counted = update_same w.messages id (some (inc_refs m));
                other_messages = λ k n. update_other w.messages id (some (inc_refs m)) k n;
                rest = refl;
              },
            )
      ]
