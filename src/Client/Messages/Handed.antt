-- ===== src/Client/Messages/Handed.antt =====
-- `dime_client_sync` and the counts of the messages that it hands over, where memory is granted.
use dime.Base.{
  ℕ, ◌+◌, ◌-◌, ◌≤◌, ◌≡◌, ◌≢◌, ap, subst, sym, ◌∙◌, true, Option, none, some, List, [], ◌∷◌, arith,
  length, take, drop, take-append-drop, length-append, ℕ_discrete,
}
use dime.Deque.Valid.{IsValid, contents, length-contents}
use dime.World.{World, Client, Message, Reply, update, elem, status_ok}
use dime.World.Logic.{Post}
use dime.World.Links.{stop-Leads}
use dime.Client.Groups.Counts.{count, count-append}
use dime.Client.Messages.{JsonInt, limit, kept, dec_refs, sync}
use dime.Client.Messages.Queue.{update_other}
use dime.Client.Messages.Sync.{Deliveries, Synced, sync_lem}
use dime.Client.Messages.Totals.{places, places_of, places_lost, Covered, Covered-Deliveries}
use dime.Client.Messages.Safe.{Bounded, Bounded-Calm}
use dime.Client.Messages.Counted.{Counted, sent_to-Counted}

count-split : (j n : ℕ) (xs : List ℕ) → count j xs ≡ count j (take n xs) + count j (drop n xs)
count-split j n xs =
    ap (count j) (sym (take-append-drop n xs)) ∙ count-append j (take n xs) (drop n xs)

length-drop : (n : ℕ) (xs : List ℕ) → length (drop n xs) ≤ length xs
length-drop n xs =
    omega (arith, ap length (take-append-drop n xs), length-append (take n xs) (drop n xs))

-- A message that is not there does not come back.
Deliveries-none :
    (ids : List ℕ) (ms : ℕ → Option Message) (replies : List Reply) (ms' : ℕ → Option Message)
    (k : ℕ)
    → Deliveries ids ms replies ms'
    → ms k ≡ none
    → ms' k ≡ none
unfolding Deliveries
Deliveries-none [] ms replies ms' k (e, same) gone = ap (λ f. f k) same ∙ gone
Deliveries-none (id ∷ ids) ms replies ms' k (m, here, later, e, d) gone =
    Deliveries-none ids (update ms id (kept (dec_refs m))) later ms' k d
      (update_other ms id _ k (λ same. cc (here, gone, ap ms same)) ∙ gone)

pub sync_unread-Bounded :
    (n fd : ℕ) (w : World) → Bounded n w → Post (Bounded n) (Bounded n) (sync fd none w)
unfolding sync
sync_unread-Bounded n fd = (stop-Leads (Bounded-Calm n)).out

module _ (w : World) (n : ℕ) (b : Bounded n w) (once : (k : ℕ) → count k w.fds ≤ 1) (fd : ℕ)
    (connected : elem fd w.fds ≡ true) where
  -- The places of a message but for those that the first `i` entries of the queue are.
  abbrev pub elsewhere : ℕ → ℕ → ℕ
  elsewhere i id = places w.clients w.fds id - count id (take i (contents 0 (w.clients fd).queue))

  taken-places :
      (i id : ℕ)
      → count id (take i (contents 0 (w.clients fd).queue)) + elsewhere i id
        ≡ places w.clients w.fds id
  taken-places i id = omega (
    arith,
    count-split id i (contents 0 (w.clients fd).queue),
    places_of w.clients fd w.fds id connected,
  )

  -- Whatever stands in the queue is there to be handed over.
  pub given :
      (i : ℕ)
      → (replies : List Reply) × (ms : ℕ → Option Message) × Deliveries
          (take i (contents 0 (w.clients fd).queue))
          w.messages
          replies
          ms
        × ((id : ℕ) → Covered (ms id) (elsewhere i id))
  given i =
      Covered-Deliveries (take i (contents 0 (w.clients fd).queue)) w.messages (elsewhere i)
        (λ id. subst (Covered (w.messages id)) (sym (taken-places i id)) (b.0.enough id))

  Synced-Counted :
      (i : ℕ) (replies : List Reply) (cs : ℕ → Client) (ms : ℕ → Option Message)
      → Deliveries (take i (contents 0 (w.clients fd).queue)) w.messages replies ms
      → ((id : ℕ) → Covered (ms id) (elsewhere i id))
      → Synced i replies (w.clients fd) (cs fd)
      → ((k : ℕ) → k ≢ fd → cs k ≡ w.clients k)
      → Counted (record w { clients = cs; messages = ms })
  Synced-Counted i replies cs ms d left s same = record {
    granted = b.0.granted;
    valid = λ k. elim (ℕ_discrete k fd) [
      | yes here ↦ subst (λ j. IsValid (cs j).queue) (sym here) s.valid
      | no away ↦ subst (λ c. IsValid c.queue) (sym (same k away)) (b.0.valid k)
    ];
    few = λ k. elim (ℕ_discrete k fd) [
      | yes here ↦ omega (
        arith,
        ap (λ j. (cs j).queue.len) here,
        ap length s.left_over,
        length-contents 0 (cs fd).queue,
        length-contents 0 (w.clients fd).queue,
        length-drop i (contents 0 (w.clients fd).queue),
        b.0.few fd,
      )
      | no away ↦ omega (arith, ap (λ c. c.queue.len) (same k away), b.0.few k)
    ];
    roomy = λ k. elim (ℕ_discrete k fd) [
      | yes here ↦ omega (arith, ap (λ j. (cs j).queue.cap) here, s.same_cap, b.0.roomy fd)
      | no away ↦ omega (arith, ap (λ c. c.queue.cap) (same k away), b.0.roomy k)
    ];
    enough = λ id.
        let ids = take i (contents 0 (w.clients fd).queue) in
        let lost : count id (contents 0 (w.clients fd).queue)
            ≡ count id ids + count id (contents 0 (cs fd).queue) =
          count-split id i (contents 0 (w.clients fd).queue)
          ∙ ap (λ xs. count id ids + count id xs) (sym s.left_over) in
        let fewer = places_lost w.clients cs fd w.fds id (count id ids) same lost (once fd) in
        subst (Covered (ms id)) (ground (arith, fewer, connected, taken-places i id)) (left id);
    unused = λ id h. Deliveries-none _ w.messages replies ms id d (b.0.unused id h);
    few_fds = b.0.few_fds;
  }

  -- The client is handed what it asks for: each of these messages is there.
  pub sync-Bounded : (limited : JsonInt) → Post (Bounded n) (Bounded n) (sync fd (some limited) w)
  sync-Bounded limited =
      let i = limit limited in
      let (replies, ms, d, left) = given i in
      let (cs, ended, s, same) = sync_lem w fd limited replies ms b.0.granted (b.0.valid fd) d in
      let after : World = record w { clients = cs; messages = ms } in
      subst (Post (Bounded n) (Bounded n)) (sym ended)
        (sent_to-Counted fd status_ok after (Synced-Counted i replies cs ms d left s same), b.1)
