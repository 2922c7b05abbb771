-- ===== src/Client/Groups/Parted.antt =====
-- Clients and groups point at each other: the invariant that `dime_client_leave` keeps, on every path.
use dime.Base.{
  ℕ, ◌<◌, ◌≡◌, ap, Option, none, some, List, [], ◌∷◌, arith, length, get_or, Option-cases, inl, inr,
}
use dime.World.{
  World, ◌>>=◌, ◌>>◌, modify_client, modify_group, not_in_group, expected_string, json_parsing,
}
use dime.World.Logic.{Post, Leads, Keeps, then-Leads, pure-Leads}
use dime.World.Links.{fail-Leads}
use dime.Client.Groups.{
  index_of, get_client, get_group, drop_name, drop_clnt, unlink, leave_group, leave_found,
  leave_name, leave_one, leave_all, leave,
}
use dime.Client.Groups.Counts.{count-get_or, index_of-none, index_of-some, count-swap_remove}
use dime.Client.Groups.Linked.{Linked, linked, answer-Keeps}

-- The entries that `dime_client_leave` has found.
record Found (fd name i j : ℕ) (w : World) : Type 0 where
  linked : Linked w
  group_at : (i < length (w.clients fd).groups) × (get_or (w.clients fd).groups i 0 ≡ name)
  clnt_at : (j < length (w.groups name).clnts) × (get_or (w.groups name).clnts j 0 ≡ fd)

unlink-Leads : (fd name i j : ℕ) → Leads (Found fd name i j) Linked Linked (unlink fd name i j)
unfolding unlink modify_client modify_group drop_name drop_clnt ◌>>◌ ◌>>=◌
unlink-Leads fd name i j = record {
  out = λ w f. record {
    both = λ k n. ground (
      arith,
      f.linked.both k n,
      count-swap_remove n (w.clients fd).groups i f.group_at.0,
      count-swap_remove k (w.groups name).clnts j f.clnt_at.0,
      f.group_at.1,
      f.clnt_at.1,
    );
    once = λ k n.
        ground (arith, f.linked.once k n, count-swap_remove n (w.clients fd).groups i f.group_at.0);
    known = λ n h. ground (arith, f.linked.known n h, ap length (f.linked.known n h), f.clnt_at.0);
  };
}

module _ (fd name : ℕ) where
  -- A client's group has the client, so the search among the group's clients succeeds: the
  -- assertion of `dime_client_leave` holds.
  leave_group-Leads :
      (i : ℕ) (w : World)
      → Linked w
      → (i < length (w.clients fd).groups) × (get_or (w.clients fd).groups i 0 ≡ name)
      → Post Linked Linked (leave_group fd name i (index_of fd (w.groups name).clnts) w)
  unfolding leave_group
  leave_group-Leads i w l group_at = elim (Option-cases (index_of fd (w.groups name).clnts)) [
    | inl missing ↦ absurd (
        omega (
          arith,
          index_of-none fd (w.groups name).clnts missing,
          l.both fd name,
          count-get_or name (w.clients fd).groups i group_at.0 group_at.1,
        ))
    | inr (j, found) ↦
        rw (found, leave_group)
          ((unlink-Leads fd name i j).out w (record {
            linked = l;
            group_at = group_at;
            clnt_at = index_of-some fd (w.groups name).clnts j found;
          }))
  ]

  leave_name-Keeps : Keeps Linked (leave_name fd name)
  unfolding leave_name leave_found get_client get_group ◌>>=◌
  leave_name-Keeps = record {
    out = λ w l. elim (Option-cases (index_of name (w.clients fd).groups)) [
      | inl missing ↦ rw (missing, leave_found) ((fail-Leads linked fd (not_in_group name)).out w l)
      | inr (i, found) ↦
          rw (found, leave_found)
            (leave_group-Leads i w l (index_of-some name (w.clients fd).groups i found))
    ];
  }

leave_one-Keeps : (fd : ℕ) (v : Option ℕ) → Keeps Linked (leave_one fd v)
unfolding leave_one
leave_one-Keeps fd none = fail-Leads linked fd expected_string
leave_one-Keeps fd (some name) = leave_name-Keeps fd name

leave_all-Keeps : (fd : ℕ) (vs : List (Option ℕ)) → Keeps Linked (leave_all fd vs)
unfolding leave_all
leave_all-Keeps fd [] = pure-Leads tt
leave_all-Keeps fd (v ∷ vs) = then-Leads (leave_one-Keeps fd v) (leave_all-Keeps fd vs)

-- `dime_client_leave` keeps clients and groups linked, whatever names the request holds and whatever
-- memory is granted, and its assertion never fails.
pub leave-Linked :
    (fd : ℕ) (arr : Option (List (Option ℕ))) (w : World)
    → Linked w
    → Post Linked Linked (leave fd arr w)
unfolding leave
leave-Linked fd none w l = (fail-Leads linked fd json_parsing).out w l
leave-Linked fd (some arr) w l = (then-Leads (leave_all-Keeps fd arr) (answer-Keeps fd)).out w l
