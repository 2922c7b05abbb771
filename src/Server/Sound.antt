-- ===== src/Server/Sound.antt =====
-- The invariant of the loop about clients, groups and the table of clients.
pub mod Requests
pub mod Listing
pub mod Gone
pub mod Visits
use dime.Base.{
  ℕ, ◌+◌, ◌≤◌, ◌<◌, ◌≡◌, ◌≢◌, refl, ap, sym, ◌∙◌, Bool, true, false, List, [], ◌∷◌, ◌++◌, arith,
  Bool-cases, inl, inr,
}
use dime.World.{World, Client, update, elem}
use dime.World.Links.{SameLinks, Stable}
use dime.Client.Groups.Counts.{count, elem-false, elem-true}
use dime.Client.Groups.Linked.{Linked, Linked-Stable}

-- Clients and groups are linked, what is not in the table of clients is in no group, and the table
-- lists no client twice.
pub record Sound (w : World) : Type 0 where
  pub linked : Linked w
  pub members_open : (fd : ℕ) → elem fd w.fds ≡ false → (w.clients fd).groups ≡ []
  pub listed_once : (fd : ℕ) → count fd w.fds ≤ 1

pub Sound-Stable : Stable Sound
Sound-Stable = record {
  move = λ w w' s h. record {
    linked = Linked-Stable.move w w' s h.linked;
    members_open =
        λ fd gone. s.groups_of fd ∙ h.members_open fd (ap (elem fd) (sym s.same_fds) ∙ gone);
    listed_once = λ fd. ground (arith, ap (count fd) s.same_fds, h.listed_once fd);
  };
}

-- Every client that a group has is in the table of clients.
pub Sound-open :
    (w : World) (fd name : ℕ)
    → Sound w
    → elem fd (w.groups name).clnts ≡ true
    → elem fd w.fds ≡ true
Sound-open w fd name h member = elim (Bool-cases (elem fd w.fds)) [
  | inl here ↦ here
  | inr gone ↦ absurd (
      omega (
        arith,
        ap (count name) (h.members_open fd gone),
        h.linked.both fd name,
        elem-true fd (w.groups name).clnts member,
      ))
]
