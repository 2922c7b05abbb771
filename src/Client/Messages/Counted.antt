-- ===== src/Client/Messages/Counted.antt =====
-- The counts of messages against the queues of clients, and how delivering a message changes both.
use dime.Base.{
  ℕ, ◌+◌, ◌*◌, ◌%◌, ◌≤◌, ◌<◌, ◌^◌, ◌≡◌, ◌≢◌, refl, ap, subst, sym, ◌∙◌, none, some, List, [], ◌∷◌,
  ◌++◌, arith, ◌==◌, if◌then◌else◌, length, length-append, Bool-cases, append-nil, inl, inr,
  ℕ_discrete,
}
use dime.Deque.Valid.{IsValid, contents, length-contents}
use dime.World.{World, Message, Reply, update, elem, add_sent}
use dime.World.Links.{Calm}
use dime.World.Granted.{sent_to}
use dime.Client.Groups.Counts.{count}
use dime.Client.Groups.Frame.{Local}
use dime.Client.Messages.Queue.{Ready, Served, update_other}
use dime.Client.Messages.Deliver.{stored}
use dime.Client.Messages.Totals.{places, places_same, places_sent, members, members_few, Covered}

-- Each message counts at least its places in the queues of the connected clients and is there while it
-- has one; queues are valid, and no longer than the number of messages so far; memory is granted.
pub record Counted (w : World) : Type 0 where
  pub granted : w.grants ≡ []
  pub valid : (k : ℕ) → IsValid (w.clients k).queue
  pub few : (k : ℕ) → (w.clients k).queue.len ≤ w.next_message
  pub roomy : (k : ℕ) → (w.clients k).queue.cap ≤ 16 + 2 * w.next_message
  pub enough : (id : ℕ) → Covered (w.messages id) (places w.clients w.fds id)
  pub unused : (id : ℕ) → w.next_message ≤ id → w.messages id ≡ none
  pub few_fds : length w.fds < 2 ^ 32

pub Counted-Calm : Calm Counted
Counted-Calm = record {
  move = λ w w' q c. record {
    granted = q.links.stays_granted c.granted;
    valid = λ k. subst IsValid (sym (q.queue_of k)) (c.valid k);
    few = λ k. omega (arith, c.few k, q.same_next, ap (λ d. d.len) (q.queue_of k));
    roomy = λ k. omega (arith, c.roomy k, q.same_next, ap (λ d. d.cap) (q.queue_of k));
    enough = λ id.
        let same : places w'.clients w'.fds id ≡ places w.clients w.fds id =
          ap (λ fds. places w'.clients fds id) q.links.same_fds
          ∙ places_same w.clients w'.clients w.fds id q.queue_of in
        subst (λ ms. Covered (ms id) (places w'.clients w'.fds id)) (sym q.same_messages)
          (subst (Covered (w.messages id)) (sym same) (c.enough id));
    unused = λ id h. ap (λ ms. ms id) q.same_messages ∙ c.unused id (omega (arith, q.same_next));
    few_fds = omega (arith, c.few_fds, ap length q.links.same_fds);
  };
}

-- The links, and what a client's requests to join and to leave change of it, do not matter.
pub Counted-Local : (fd : ℕ) → Local fd Counted
Counted-Local fd = record {
  calm = Counted-Calm;
  on_groups = λ w groups names c. record {
    granted = c.granted;
    valid = c.valid;
    few = c.few;
    roomy = c.roomy;
    enough = c.enough;
    unused = c.unused;
    few_fds = c.few_fds;
  };
  on_client = λ w f same c.
      let cs = update w.clients fd (f (w.clients fd)) in
      let queue_of : (k : ℕ) → (cs k).queue ≡ (w.clients k).queue =
        λ k. ground (arith, same (w.clients fd)) in
      record {
        granted = c.granted;
        valid = λ k. subst IsValid (sym (queue_of k)) (c.valid k);
        few = λ k. omega (arith, c.few k, ap (λ d. d.len) (queue_of k));
        roomy = λ k. omega (arith, c.roomy k, ap (λ d. d.cap) (queue_of k));
        enough = λ id.
            subst (Covered (w.messages id)) (sym (places_same w.clients cs w.fds id queue_of))
              (c.enough id);
        unused = c.unused;
        few_fds = c.few_fds;
      };
}

pub sent_to-Counted : (fd : ℕ) (r : Reply) (w : World) → Counted w → Counted (sent_to fd r w)
unfolding add_sent
sent_to-Counted fd r w = Counted-Calm.move w (sent_to fd r w) (record {
  links = record {
    groups_of = λ k. ground arith;
    clnts_of = λ k. refl;
    same_names = refl;
    same_fds = refl;
    stays_granted = λ g. g;
  };
  queue_of = λ k. ground arith;
  same_messages = refl;
  same_next = refl;
})

pub Counted-Ready : (w : World) (k : ℕ) → Counted w → w.next_message < 2 ^ 60 → Ready (w.clients k)
Counted-Ready w k c early = record { valid = c.valid k; small = omega (arith, c.roomy k) }

-- A message that is new has no place yet.
pub new-places :
    (w : World) (id : ℕ) → Counted w → w.next_message ≤ id → places w.clients w.fds id ≡ 0
unfolding Covered
new-places w id c h =
    subst (λ o. Covered o (places w.clients w.fds id)) (c.unused id h) (c.enough id)

-- The delivery of a new message.
module _ (w w₁ : World) (receivers : List ℕ) (m : Message) (c : Counted w)
    (s : Served w.next_message receivers m (stored m w) w₁) (unreferenced : m.refs ≡ 0)
    (once : (k : ℕ) → count k w.fds ≤ 1) (small : length receivers < 2 ^ 32) where
  fds_kept : w₁.fds ≡ w.fds
  fds_kept = ap (λ v. v.fds) s.rest

  next_kept : w₁.next_message ≡ w.next_message + 1
  next_kept = ap (λ v. v.next_message) s.rest

  queue_after :
      (k : ℕ)
      → contents 0 (w₁.clients k).queue
        ≡ contents 0 (w.clients k).queue ++ (if elem k receivers then w.next_message ∷ [] else [])
  queue_after k = elim (Bool-cases (elem k receivers)) [
    | inl told ↦ rw told (s.told_all k told).queued
    | inr other ↦
        rw other (ap (λ c. contents 0 c.queue) (s.others_same k other) ∙ sym (append-nil _))
  ]

  len-after : (k : ℕ) → (w₁.clients k).queue.len ≤ (w.clients k).queue.len + 1
  len-after k = ground (
    arith,
    ap length (queue_after k),
    length-append {0} (contents 0 (w.clients k).queue)
        (if elem k receivers then w.next_message ∷ [] else []),
    length-contents 0 (w₁.clients k).queue,
    length-contents 0 (w.clients k).queue,
  )

  IsValid-after : (k : ℕ) → IsValid (w₁.clients k).queue
  IsValid-after k = elim (Bool-cases (elem k receivers)) [
    | inl told ↦ (s.told_all k told).valid
    | inr other ↦ subst (λ c. IsValid c.queue) (sym (s.others_same k other)) (c.valid k)
  ]

  cap-after : (k : ℕ) → (w₁.clients k).queue.cap ≤ 16 + 2 * w₁.next_message
  cap-after k = elim (Bool-cases (elem k receivers)) [
    | inl told ↦ ground (arith, (s.told_all k told).growth, c.roomy k, c.few k, next_kept)
    | inr other ↦ omega (arith, ap (λ c. c.queue.cap) (s.others_same k other), c.roomy k, next_kept)
  ]

  enough-after : (id : ℕ) → Covered (w₁.messages id) (places w₁.clients w₁.fds id)
  unfolding Covered
  enough-after id =
      let sent : places w₁.clients w₁.fds id
          ≡ places w.clients w.fds id
            + (if w.next_message == id then members w.fds receivers else 0) =
        ap (λ fds. places w₁.clients fds id) fds_kept
        ∙ places_sent w.clients w₁.clients receivers w.fds w.next_message id queue_after in
      elim (ℕ_discrete id w.next_message) [
        | yes new ↦
            let none_yet = new-places w id c (omega (arith, new)) in
            let few_places : places w₁.clients w₁.fds id ≤ length receivers =
              ground (arith, sent, none_yet, members_few w.fds receivers once) in
            let here : w₁.messages id
                ≡ some (record m { refs = (m.refs + length receivers) % 2 ^ 32 }) =
              ap w₁.messages new ∙ s.counted in
            subst (λ o. Covered o (places w₁.clients w₁.fds id)) (sym here)
              (omega (arith, few_places), omega arith)
        | no old ↦
            let same : w₁.messages id ≡ w.messages id =
              s.other_messages id old ∙ update_other w.messages w.next_message (some m) id old in
            let as_many : places w₁.clients w₁.fds id ≡ places w.clients w.fds id =
              ground (arith, sent) in
            subst (λ o. Covered o (places w₁.clients w₁.fds id)) (sym same)
              (subst (Covered (w.messages id)) (sym as_many) (c.enough id))
      ]

  pub Served-Counted : Counted w₁
  Served-Counted = record {
    granted = ap (λ v. v.grants) s.rest ∙ c.granted;
    valid = IsValid-after;
    few = λ k. omega (arith, len-after k, c.few k, next_kept);
    roomy = cap-after;
    enough = enough-after;
    unused = λ id h.
        let old : id ≢ w.next_message = ground (arith, next_kept) in
        s.other_messages id old
        ∙ update_other w.messages w.next_message (some m) id old
        ∙ c.unused id (omega (arith, next_kept));
    few_fds = omega (arith, c.few_fds, ap length fds_kept);
  }
