-- ===== src/Client/Groups/Linked.antt =====
-- The invariant that clients and groups point at each other, and the answer that server/client.c's
-- `dime_client_join` and `dime_client_leave` end with.
use dime.Base.{ℕ, ◌≤◌, ◌≡◌, ap, sym, ◌∙◌, false, [], arith}
use dime.World.{World, elem, push, require, status_ok}
use dime.World.Logic.{Keeps}
use dime.World.Links.{Stable, Calm, Stable-Calm, push-Keeps, require-Keeps}
use dime.Client.Groups.Counts.{count}

-- A client stands among a group's clients exactly when the group stands among the client's groups,
-- and then once; a name that is not in the table has no clients.
pub record Linked (w : World) : Type 0 where
  pub both : (fd name : ℕ) → count fd (w.groups name).clnts ≡ count name (w.clients fd).groups
  pub once : (fd name : ℕ) → count name (w.clients fd).groups ≤ 1
  pub known : (name : ℕ) → elem name w.names ≡ false → (w.groups name).clnts ≡ []

pub Linked-Stable : Stable Linked
Linked-Stable = record {
  move = λ w w' s l. record {
    both = λ fd name.
        ap (count fd) (s.clnts_of name) ∙ l.both fd name ∙ ap (count name) (sym (s.groups_of fd));
    once = λ fd name. omega (arith, ap (count name) (s.groups_of fd), l.once fd name);
    known = λ name h. s.clnts_of name ∙ l.known name (ap (elem name) (sym s.same_names) ∙ h);
  };
}

pub linked : Calm Linked
linked = Stable-Calm Linked-Stable

pub answer-Keeps : (fd : ℕ) → Keeps Linked (require fd (push fd status_ok))
answer-Keeps fd = require-Keeps linked fd (push-Keeps linked fd status_ok)
