-- ===== src/Client/Messages/Safe.antt =====
-- `dime_client_send` and `dime_client_broadcast` and the counts of messages, where memory is
-- granted.
use dime.Base.{
  ℕ, suc, ◌+◌, ◌≤◌, ◌<◌, ◌^◌, ◌≡◌, refl, ap, subst, sym, ◌∙◌, true, not, ◌&&◌, none, some, List, [],
  ◌∷◌, arith, ◌==◌, length, Bool-cases, inl, inr, ℕ_discrete,
}
use dime.World.{
  World, Message, Outcome, ok, pure, ◌>>=◌, ◌>>◌, update, elem, json_parsing, no_such_group,
  status_ok,
}
use dime.World.Logic.{Post, change-Post}
use dime.World.Links.{Calm, fail-Leads}
use dime.World.Granted.{sent_to, require-alloc, require-push}
use dime.Client.Groups.{get_group, is_known}
use dime.Client.Groups.Counts.{count}
use dime.Client.Groups.Frame.{Local}
use dime.Client.Messages.{
  get_message, put_message, new_message, checked, kept, free_unused, deliver_all, send, others,
  get_fds, broadcast,
}
use dime.Client.Messages.Queue.{update_same}
use dime.Client.Messages.Deliver.{Sent, send-Sent}
use dime.Client.Messages.Broadcast.{broadcast-Sent}
use dime.Client.Messages.Totals.{places, count-Distinct, length_within, Covered}
use dime.Client.Messages.Counted.{
  Counted, Counted-Local, Counted-Calm, Counted-Ready, sent_to-Counted, Served-Counted,
}

-- Counted, with at most `n` messages so far.
abbrev pub Bounded : ℕ → World → Type 0
Bounded n w = Counted w × (w.next_message ≤ n)

pub Bounded-Calm : (n : ℕ) → Calm (Bounded n)
Bounded-Calm n = record {
  move = λ w w' q (c, few). (Counted-Calm.move w w' q c, omega (arith, q.same_next));
}

pub later-Bounded : (n : ℕ) (w : World) → Bounded n w → Bounded (suc n) w
later-Bounded n w (c, few) = (c, omega arith)

-- A request that makes no message.
pub quiet-Bounded :
    (n : ℕ) (out : Outcome (Unit {0}) × World)
    → Post (Bounded n) (Bounded n) out
    → Post (Bounded (suc n)) (Bounded (suc n)) out
quiet-Bounded n out p =
    change-Post (Bounded n) _ (Bounded n) _ out (later-Bounded n) (later-Bounded n) p

pub send_unread-Bounded :
    (n fd : ℕ) (jsondata bindata : List ℕ) (w : World)
    → Bounded n w
    → Post (Bounded n) (Bounded n) (send fd none jsondata bindata w)
unfolding send
send_unread-Bounded n fd jsondata bindata = (fail-Leads (Bounded-Calm n) fd json_parsing).out

pub Bounded-Local : (fd n : ℕ) → Local fd (Bounded n)
Bounded-Local fd n = record {
  calm = Bounded-Calm n;
  on_groups = λ w groups names (c, few). ((Counted-Local fd).on_groups w groups names c, few);
  on_client = λ w f same (c, few). ((Counted-Local fd).on_client w f same c, few);
}

module _ (w : World) (n : ℕ) (b : Bounded n w) (early : n < 2 ^ 60)
    (once : (k : ℕ) → count k w.fds ≤ 1) where
  Sent-Bounded :
      (fd : ℕ) (receivers : List ℕ) (m : Message) (w' : World)
      → m.refs ≡ 0
      → length receivers < 2 ^ 32
      → Sent fd receivers m w w'
      → Bounded (suc n) w'
  Sent-Bounded fd receivers m w' unreferenced small s =
      let w₁ = s.served_world in
      let next : w₁.next_message ≡ w.next_message + 1 = ap (λ v. v.next_message) s.served.rest in
      subst (Bounded (suc n)) (sym s.replied) (
        sent_to-Counted fd status_ok w₁
            (Served-Counted w w₁ receivers m b.0 s.served unreferenced once small),
        omega (arith, next, b.1),
      )

  pub send-Bounded :
      (fd name : ℕ) (jsondata bindata : List ℕ)
      → ((k : ℕ) → count k (w.groups name).clnts ≤ 1)
      → ((k : ℕ) → elem k (w.groups name).clnts ≡ true → elem k w.fds ≡ true)
      → Post (Bounded (suc n)) (Bounded (suc n)) (send fd (some name) jsondata bindata w)
  unfolding send is_known get_group ◌>>=◌
  send-Bounded fd name jsondata bindata members_once connected =
      elim (Bool-cases (elem name w.names && not (length (w.groups name).clnts == 0))) [
        | inl found ↦
            let small : length (w.groups name).clnts < 2 ^ 32 = omega (
              arith,
              length_within (w.groups name).clnts w.fds members_once connected,
              b.0.few_fds,
            ) in
            let (w', sent, s) =
              send-Sent w fd name jsondata bindata b.0.granted (ground arith) (ground arith) small
                (count-Distinct (w.groups name).clnts members_once)
                (λ k e. Counted-Ready w k b.0 (omega (arith, b.1))) in
            subst (Post (Bounded (suc n)) (Bounded (suc n))) (sym sent)
              (Sent-Bounded fd (w.groups name).clnts _ w' refl small s)
        | inr missing ↦
            rw missing
              (quiet-Bounded n _ ((fail-Leads (Bounded-Calm n) fd (no_such_group name)).out w b))
      ]

count-others : (fd k : ℕ) (fds : List ℕ) → count k (others fd fds) ≤ count k fds
unfolding others
count-others fd k [] = omega arith
count-others fd k (x ∷ fds) = ground (arith, count-others fd k fds)

length-others : (fd : ℕ) (fds : List ℕ) → length (others fd fds) ≤ length fds
unfolding others
length-others fd [] = omega arith
length-others fd (x ∷ fds) = ground (arith, length-others fd fds)

-- A message with no receiver is freed at once.
abbrev freed : Message → World → World
freed m w = record w {
  messages = update (update w.messages w.next_message (some m)) w.next_message none;
  next_message = w.next_message + 1;
}

freed-Counted : (w : World) (m : Message) → Counted w → Counted (freed m w)
freed-Counted w m c = record {
  granted = c.granted;
  valid = c.valid;
  few = λ k. omega (arith, c.few k);
  roomy = λ k. omega (arith, c.roomy k);
  enough = λ id. subst (λ o. Covered o (places w.clients w.fds id)) (sym (same id)) (c.enough id);
  unused = λ id h. same id ∙ c.unused id (omega arith);
  few_fds = c.few_fds;
}
  where
    same : (id : ℕ) → (freed m w).messages id ≡ w.messages id
    same id = elim (ℕ_discrete id w.next_message) [
      | yes new ↦ ground (arith, c.unused id (omega (arith, new)))
      | no old ↦ ground arith
    ]

broadcast_alone :
    (w : World) (fd : ℕ) (jsondata bindata : List ℕ)
    → w.grants ≡ []
    → others fd w.fds ≡ []
    → broadcast fd jsondata bindata w ≡ (
      ok tt,
      sent_to fd status_ok (freed (record { refs = 0; jsondata = jsondata; bindata = bindata }) w),
    )
unfolding broadcast new_message get_fds deliver_all free_unused get_message put_message checked kept
    pure ◌>>=◌ ◌>>◌
broadcast_alone w fd jsondata bindata g alone =
    let m : Message = record { refs = 0; jsondata = jsondata; bindata = bindata } in
    rw
      (
        require-alloc w g fd,
        require-alloc w g fd,
        alone,
        update_same w.messages w.next_message (some m),
        require-push (freed m w) g fd fd status_ok,
      )
      refl

module _ (w : World) (n : ℕ) (b : Bounded n w) (early : n < 2 ^ 60)
    (once : (k : ℕ) → count k w.fds ≤ 1) where
  pub broadcast-Bounded :
      (fd : ℕ) (jsondata bindata : List ℕ)
      → Post (Bounded (suc n)) (Bounded (suc n)) (broadcast fd jsondata bindata w)
  broadcast-Bounded fd jsondata bindata = elim (Bool-cases (length (others fd w.fds) == 0)) [
    | inl empty ↦
        let m : Message = record { refs = 0; jsondata = jsondata; bindata = bindata } in
        subst (Post (Bounded (suc n)) (Bounded (suc n)))
          (sym (
            broadcast_alone w fd jsondata bindata b.0.granted
              (length-zero (others fd w.fds) (ground arith))))
          (sent_to-Counted fd status_ok (freed m w) (freed-Counted w m b.0), omega (arith, b.1))
    | inr others_there ↦
        let small : length (others fd w.fds) < 2 ^ 32 =
          omega (arith, length-others fd w.fds, b.0.few_fds) in
        let (w', sent, s) =
          broadcast-Sent w fd jsondata bindata b.0.granted (ground arith) small
            (count-Distinct (others fd w.fds) (λ k. omega (arith, count-others fd k w.fds, once k)))
            (λ k e. Counted-Ready w k b.0 (omega (arith, b.1))) in
        subst (Post (Bounded (suc n)) (Bounded (suc n))) (sym sent)
          (Sent-Bounded w n b early once fd (others fd w.fds) _ w' refl small s)
  ]
    where
      length-zero : (xs : List ℕ) → length xs ≡ 0 → xs ≡ []
      length-zero [] h = refl
      length-zero (x ∷ xs) h = absurd (omega arith)
