-- ===== src/World/Links.antt =====
-- Steps of `World` and what they may change: neither a client's groups nor a group's clients, and
-- mostly neither a queue nor a message.
use dime.Base.{ℕ, ◌≡◌, refl, Bool, true, false, [], arith}
use dime.World.{
  World, Client, Group, Error, Reply, M, alloc, modify_client, modify_group, add_sent, push,
  set_err, stop, fail, require, status_error,
}
use dime.World.Logic.{Leads, Keeps, bind-Leads, then-Leads, pure-Leads, if-Leads}

-- Worlds with the same links and the same tables, where granted memory stays granted.
pub record SameLinks (w w' : World) : Type 0 where
  pub groups_of : (fd : ℕ) → (w'.clients fd).groups ≡ (w.clients fd).groups
  pub clnts_of : (name : ℕ) → (w'.groups name).clnts ≡ (w.groups name).clnts
  pub same_names : w'.names ≡ w.names
  pub same_fds : w'.fds ≡ w.fds
  pub stays_granted : w.grants ≡ [] → w'.grants ≡ []

-- Worlds with the same queues and messages, too.
pub record Quiet (w w' : World) : Type 0 where
  pub links : SameLinks w w'
  pub queue_of : (fd : ℕ) → (w'.clients fd).queue ≡ (w.clients fd).queue
  pub same_messages : w'.messages ≡ w.messages
  pub same_next : w'.next_message ≡ w.next_message

-- A property of the links, the tables, the queues and the messages alone.
pub record Calm (P : World → Type 0) : Type 0 where
  pub move : (w w' : World) → Quiet w w' → P w → P w'

-- A property of the links and the tables alone.
pub record Stable (P : World → Type 0) : Type 0 where
  pub move : (w w' : World) → SameLinks w w' → P w → P w'

pub Stable-Calm : {P : World → Type 0} → Stable P → Calm P
Stable-Calm s = record { move = λ w w' q. s.move w w' q.links }

module _ {P : World → Type 0} (s : Calm P) where
  pub alloc-Keeps : Keeps P alloc
  unfolding alloc
  alloc-Keeps = record {
    out = λ w. s.move w _ (record {
      links = record {
        groups_of = λ k. refl;
        clnts_of = λ k. refl;
        same_names = refl;
        same_fds = refl;
        stays_granted = λ g. ground (arith, g);
      };
      queue_of = λ k. refl;
      same_messages = refl;
      same_next = refl;
    });
  }

  pub set_err-Keeps : (e : Error) → Keeps P (set_err e)
  unfolding set_err
  set_err-Keeps e = record {
    out = λ w. s.move w _ (record {
      links = record {
        groups_of = λ k. refl;
        clnts_of = λ k. refl;
        same_names = refl;
        same_fds = refl;
        stays_granted = λ g. g;
      };
      queue_of = λ k. refl;
      same_messages = refl;
      same_next = refl;
    });
  }

  pub stop-Leads : {A : Type 0} {Q : World → Type 0} → Leads P Q P (stop {A = A})
  unfolding stop
  stop-Leads = record { out = λ w p. p }

  pub modify_client-Keeps :
      (fd : ℕ) (f : Client → Client)
      → ((c : Client) → (f c).groups ≡ c.groups)
      → ((c : Client) → (f c).queue ≡ c.queue)
      → Keeps P (modify_client fd f)
  unfolding modify_client
  modify_client-Keeps fd f h q = record {
    out = λ w. s.move w _ (record {
      links = record {
        groups_of = λ k. ground (arith, h (w.clients fd));
        clnts_of = λ k. refl;
        same_names = refl;
        same_fds = refl;
        stays_granted = λ g. g;
      };
      queue_of = λ k. ground (arith, q (w.clients fd));
      same_messages = refl;
      same_next = refl;
    });
  }

  pub modify_group-Keeps :
      (name : ℕ) (f : Group → Group)
      → ((g : Group) → (f g).clnts ≡ g.clnts)
      → Keeps P (modify_group name f)
  unfolding modify_group
  modify_group-Keeps name f h = record {
    out = λ w. s.move w _ (record {
      links = record {
        groups_of = λ k. refl;
        clnts_of = λ k. ground (arith, h (w.groups name));
        same_names = refl;
        same_fds = refl;
        stays_granted = λ g. g;
      };
      queue_of = λ k. refl;
      same_messages = refl;
      same_next = refl;
    });
  }

  add_sent-groups : (r : Reply) (c : Client) → (add_sent r c).groups ≡ c.groups
  unfolding add_sent
  add_sent-groups r c = refl

  add_sent-queue : (r : Reply) (c : Client) → (add_sent r c).queue ≡ c.queue
  unfolding add_sent
  add_sent-queue r c = refl

  pub push-Keeps : (fd : ℕ) (r : Reply) → Keeps P (push fd r)
  unfolding push
  push-Keeps fd r = bind-Leads alloc-Keeps λ b.
      if-Leads b
        (then-Leads (modify_client-Keeps fd (add_sent r) (add_sent-groups r) (add_sent-queue r))
          (pure-Leads true))
        (pure-Leads false)

  pub fail-Leads :
      {A : Type 0} {Q : World → Type 0} (fd : ℕ) (e : Error) → Leads P Q P (fail {A = A} fd e)
  unfolding fail
  fail-Leads fd e = then-Leads (set_err-Keeps e) (
      bind-Leads alloc-Keeps λ b.
        bind-Leads (if-Leads b (push-Keeps fd (status_error e)) (pure-Leads false)) λ _. stop-Leads)

  pub require-Keeps : {m : M Bool} (fd : ℕ) → Keeps P m → Keeps P (require fd m)
  unfolding require
  require-Keeps fd h = bind-Leads h (λ b. if-Leads b (pure-Leads tt) (fail-Leads fd _))

-- A change of one client that leaves its groups alone.
pub set_client-Keeps :
    {P : World → Type 0}
    → Stable P
    → (fd : ℕ) (f : Client → Client) → ((c : Client) → (f c).groups ≡ c.groups)
    → Keeps P (modify_client fd f)
unfolding modify_client
set_client-Keeps s fd f h = record {
  out = λ w. s.move w _ (record {
    groups_of = λ k. ground (arith, h (w.clients fd));
    clnts_of = λ k. refl;
    same_names = refl;
    same_fds = refl;
    stays_granted = λ g. g;
  });
}
