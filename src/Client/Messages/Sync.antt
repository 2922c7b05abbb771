-- ===== src/Client/Messages/Sync.antt =====
-- `dime_client_sync` hands a client what it has queued, oldest first.
use dime.Base.{
  ℕ, zero, suc, ◌≡◌, ◌≢◌, refl, ap, subst, sym, ◌∙◌, Option, some, List, [], ◌∷◌, ◌++◌, inl, inr,
  append-nil, append_assoc, take, drop,
}
use dime.Deque.{Deque}
use dime.Deque.Valid.{IsValid, contents}
use dime.Deque.Pop.{popl_lem, cap-popl}
use dime.World.{
  World, Client, Message, Reply, M, ok, pure, ◌>>=◌, ◌>>◌, update, modify_client, deliver,
  status_ok, add_sent,
}
use dime.World.Granted.{sent_to, push_granted, require-push}
use dime.Client.Groups.{get_client}
use dime.Client.Messages.{
  JsonInt, limit, get_message, put_message, checked, kept, dec_refs, drop_ref, set_queue,
  sync_message, sync_round, sync_loop, sync,
}
use dime.Client.Messages.Queue.{update_same, update_other}

-- The replies that hand over the messages at `ids`, and what is left of the messages once each of them
-- has given up one reference for each time that it stands there.
unfoldable pub Deliveries :
    List ℕ → (ℕ → Option Message) → List Reply → (ℕ → Option Message) → Type 0
Deliveries [] ms replies ms' = (replies ≡ []) × (ms' ≡ ms)
Deliveries (id ∷ ids) ms replies ms' =
    (m : Message) × (ms id ≡ some m)
    × (later : List Reply) × (replies ≡ deliver m.jsondata m.bindata ∷ later)
    × Deliveries ids (update ms id (kept (dec_refs m))) later ms'

-- What a client is like once it was given `replies` for the first `n` entries of its queue.
pub record Synced (n : ℕ) (replies : List Reply) (c c' : Client) : Type 0 where
  pub valid : IsValid c'.queue
  pub left_over : contents 0 c'.queue ≡ drop n (contents 0 c.queue)
  pub delivered : c'.sent ≡ c.sent ++ replies
  pub same_cap : c'.queue.cap ≡ c.queue.cap
  pub same_state :
      (c'.waiting ≡ c.waiting) × (c'.groups ≡ c.groups) × (c'.groups_cap ≡ c.groups_cap)

module _ (fd : ℕ) where
  -- One round's client.
  abbrev round : Deque ℕ → Message → Client → Client
  round q m c = add_sent (deliver m.jsondata m.bindata) (set_queue q c)

  sync_round-granted :
      (w : World) (more : M (Unit {0})) (q : Deque ℕ) (id : ℕ) (m : Message)
      → w.grants ≡ []
      → w.messages id ≡ some m
      → (cs : ℕ → Client) × (sync_round fd more (some id, q) w
          ≡ more (record w { clients = cs; messages = update w.messages id (kept (dec_refs m)) }))
        × (cs fd ≡ round q m (w.clients fd))
        × ((k : ℕ) → k ≢ fd → cs k ≡ w.clients k)
  unfolding sync_round sync_message drop_ref get_message put_message checked modify_client ◌>>=◌
      ◌>>◌
  sync_round-granted w more q id m g here =
      let r = deliver m.jsondata m.bindata in
      let w₁ : World = record w { clients = update w.clients fd (set_queue q (w.clients fd)) } in
      (
        (sent_to fd r w₁).clients,
        rw (here, push_granted w₁ g fd r, here) refl,
        update_same w₁.clients fd (add_sent r (w₁.clients fd))
            ∙ ap (add_sent r) (update_same w.clients fd _),
        λ k n.
            update_other w₁.clients fd (add_sent r (w₁.clients fd)) k n
            ∙ update_other w.clients fd _ k n,
      )

  sync_loop_lem :
      (n : ℕ) (w : World) (replies : List Reply) (ms : ℕ → Option Message)
      → w.grants ≡ []
      → IsValid (w.clients fd).queue
      → Deliveries (take n (contents 0 (w.clients fd).queue)) w.messages replies ms
      → (cs : ℕ → Client) × (sync_loop n fd w ≡ (ok tt, record w { clients = cs; messages = ms }))
        × Synced n replies (w.clients fd) (cs fd)
        × ((k : ℕ) → k ≢ fd → cs k ≡ w.clients k)
  unfolding sync_loop get_client sync_round set_queue add_sent Deliveries pure ◌>>=◌
  sync_loop_lem zero w replies ms g v (none_given, same) = (
    w.clients,
    rw same refl,
    record {
      valid = v;
      left_over = refl;
      delivered = rw none_given (sym (append-nil (w.clients fd).sent));
      same_cap = refl;
      same_state = (refl, refl, refl);
    },
    λ k n. refl,
  )
  sync_loop_lem (suc n) w replies ms g v d = elim (popl_lem 0 (w.clients fd).queue v) [
    | inl (is_empty, e) ↦
        let (none_given, same) =
          subst (λ ids. Deliveries (take (suc n) ids) w.messages replies ms) is_empty d in
        (
          w.clients,
          rw (e, same) refl,
          record {
            valid = v;
            left_over = rw is_empty refl;
            delivered = rw none_given (sym (append-nil (w.clients fd).sent));
            same_cap = refl;
            same_state = (refl, refl, refl);
          },
          λ k n. refl,
        )
    | inr (id, q, popped, valid_q, held) ↦
        let (m, here, later, given, d₁) =
          subst (λ ids. Deliveries (take (suc n) ids) w.messages replies ms) held d in
        let (cs, this_round, at_fd, others_kept) =
          sync_round-granted w (sync_loop n fd) q id m g here in
        let w₁ : World = record w {
          clients = cs;
          messages = update w.messages id (kept (dec_refs m));
        } in
        let queue_at : (cs fd).queue ≡ q = ap (λ c. c.queue) at_fd in
        let (cs', rounds, s, others_kept') =
          sync_loop_lem n w₁ later ms g (subst IsValid (sym queue_at) valid_q) (
            subst (λ d. Deliveries (take n (contents 0 d)) w₁.messages later ms) (sym queue_at)
              d₁) in
        (
          cs',
          rw popped (this_round ∙ rounds),
          record {
            valid = s.valid;
            left_over = s.left_over ∙ rw (queue_at, held) refl;
            delivered = s.delivered ∙ rw (at_fd, given) (append_assoc (w.clients fd).sent _ later);
            same_cap =
                s.same_cap
                ∙ ap (λ d. d.cap) queue_at
                ∙ ap (λ (r : Option ℕ × Deque ℕ). r.1.cap) (sym popped)
                ∙ cap-popl 0 (w.clients fd).queue;
            same_state = (
              s.same_state.0 ∙ ap (λ c. c.waiting) at_fd,
              s.same_state.1 ∙ ap (λ c. c.groups) at_fd,
              s.same_state.2 ∙ ap (λ c. c.groups_cap) at_fd,
            );
          },
          λ k n. others_kept' k n ∙ others_kept k n,
        )
  ]

-- Where memory is granted, `dime_client_sync` gives a client the first `n` entries of its queue (all
-- if it has fewer), oldest first, and then the status. The queue keeps what is behind them, each
-- message given gives up a reference and is freed with its last one, and no other client changes. The
-- queue must be well formed and each message in turn must still be there.
pub sync_lem :
    (w : World) (fd : ℕ) (n : JsonInt) (replies : List Reply) (ms : ℕ → Option Message)
    → w.grants ≡ []
    → IsValid (w.clients fd).queue
    → Deliveries (take (limit n) (contents 0 (w.clients fd).queue)) w.messages replies ms
    → (cs : ℕ → Client) × (sync fd (some n) w
        ≡ (ok tt, sent_to fd status_ok (record w { clients = cs; messages = ms })))
      × Synced (limit n) replies (w.clients fd) (cs fd)
      × ((k : ℕ) → k ≢ fd → cs k ≡ w.clients k)
unfolding sync ◌>>=◌ ◌>>◌
sync_lem w fd n replies ms g v d =
    let (cs, rounds, s, others_kept) = sync_loop_lem fd (limit n) w replies ms g v d in
    (
      cs,
      rw (rounds, require-push (record w { clients = cs; messages = ms }) g fd fd status_ok) refl,
      s,
      others_kept,
    )
