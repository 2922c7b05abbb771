-- ===== src/Client/Session/Teardown.antt =====
-- `dime_client_destroy`: the groups of a client that goes.
use dime.Base.{
  ℕ, ◌≤◌, ◌≡◌, ◌≢◌, refl, ap, sym, ◌∙◌, false, Option, none, some, List, [], ◌∷◌, arith, length,
  Option-cases, inl, inr,
}
use dime.World.{World, ◌>>=◌, elem, modify_group}
use dime.World.Links.{Stable}
use dime.World.Logic.{Leads, bind-Leads, then-Leads, pure-Leads, look-Leads}
use dime.World.After.{Leads-Ends, End, Ends, bind-Ends, then-Ends, pure-Ends, abort-Ends}
use dime.Client.Groups.{index_of, get_client, get_group, drop_clnt}
use dime.Client.Groups.Counts.{count, index_of-none, index_of-some, count-swap_remove}
use dime.Client.Groups.Frame.{Local, get_client-Ends}
use dime.Client.Messages.Links.{drop_ref-Ends}
use dime.Client.Session.{drop_found, leave_groups, drop_refs, drop_walked, destroy}

-- Clients and groups are linked but for `fd`, which stands in the groups of `rest` alone.
pub record Leaving (fd : ℕ) (rest : List ℕ) (w : World) : Type 0 where
  pub elsewhere :
      (k name : ℕ) → k ≢ fd → count k (w.groups name).clnts ≡ count name (w.clients k).groups
  pub left : (name : ℕ) → count fd (w.groups name).clnts ≡ count name rest
  pub once : (k name : ℕ) → count name (w.clients k).groups ≤ 1
  pub known : (name : ℕ) → elem name w.names ≡ false → (w.groups name).clnts ≡ []

Leaving-Stable : (fd : ℕ) (rest : List ℕ) → Stable (Leaving fd rest)
Leaving-Stable fd rest = record {
  move = λ w w' s l. record {
    elsewhere = λ k name n.
        ap (count k) (s.clnts_of name)
        ∙ l.elsewhere k name n
        ∙ ap (count name) (sym (s.groups_of k));
    left = λ name. ap (count fd) (s.clnts_of name) ∙ l.left name;
    once = λ k name. ground (arith, ap (count name) (s.groups_of k), l.once k name);
    known = λ name h. s.clnts_of name ∙ l.known name (ap (elem name) (sym s.same_names) ∙ h);
  };
}

module _ (fd : ℕ) where
  drop_found-Leaving :
      (name j : ℕ) (names : List ℕ) (w : World)
      → Leaving fd (name ∷ names) w
      → index_of fd (w.groups name).clnts ≡ some j
      → End (Leaving fd names) (Leaving fd names) (modify_group name (drop_clnt j) w)
  unfolding modify_group drop_clnt
  drop_found-Leaving name j names w l found =
      let at = index_of-some fd (w.groups name).clnts j found in
      record {
        elsewhere = λ k n away.
            ground
              (arith, l.elsewhere k n away, count-swap_remove k (w.groups name).clnts j at.0, at.1);
        left =
            λ n. ground (arith, l.left n, count-swap_remove fd (w.groups name).clnts j at.0, at.1);
        once = l.once;
        known = λ n h. ground (arith, l.known n h, ap length (l.known n h), at.0);
      }

  -- The group's array as it is when the search begins.
  abbrev Searched : ℕ → List ℕ → List ℕ → World → Type 0
  Searched name names clnts w = Leaving fd (name ∷ names) w × ((w.groups name).clnts ≡ clnts)

  drop_found-Ends :
      {E : World → Type 0} (name : ℕ) (names clnts : List ℕ)
      → Ends (Searched name names clnts) (Leaving fd names) E (drop_found name (index_of fd clnts))
  unfolding drop_found modify_group
  drop_found-Ends name names clnts = record {
    out = λ w (l, same). elim (Option-cases (index_of fd (w.groups name).clnts)) [
      | inl missing ↦
          absurd (grind (arith, l.left name, index_of-none fd (w.groups name).clnts missing))
      | inr (j, found) ↦
          rw (sym same, found, drop_found) (drop_found-Leaving name j names w l found)
    ];
  }

  leave_groups-Leaving :
      {E : World → Type 0} (names : List ℕ)
      → Ends (Leaving fd names) (Leaving fd []) E (leave_groups fd names)
  unfolding leave_groups get_group ◌>>=◌
  leave_groups-Leaving [] = pure-Ends tt
  leave_groups-Leaving (name ∷ names) = record {
    out = λ w l.
        (then-Ends (drop_found-Ends name names (w.groups name).clnts)
            (leave_groups-Leaving names)).out
          w (l, refl);
  }

module _ {P E : World → Type 0} (s : Stable P) where
  drop_refs-Ends : (ids : List ℕ) → Ends P P E (drop_refs ids)
  unfolding drop_refs
  drop_refs-Ends [] = pure-Ends tt
  drop_refs-Ends (id ∷ ids) = then-Ends (drop_ref-Ends s id) (drop_refs-Ends ids)

  drop_walked-Ends : (ids : Option (List ℕ)) → Ends P P E (drop_walked ids)
  unfolding drop_walked
  drop_walked-Ends none = abort-Ends
  drop_walked-Ends (some ids) = drop_refs-Ends ids

-- Every group of the client finds it in its array and loses it, so that it stands in none; the
-- teardown never returns -1.
pub destroy-Leaving :
    {E : World → Type 0} (fd : ℕ)
    → Ends (λ w. Leaving fd (w.clients fd).groups w) (Leaving fd []) E (destroy fd)
unfolding destroy get_client ◌>>=◌
destroy-Leaving fd = record {
  out = λ w.
      (then-Ends (leave_groups-Leaving fd (w.clients fd).groups)
          (drop_walked-Ends (Leaving-Stable fd []) _)).out
        w;
}

module _ {fd : ℕ} {P E : World → Type 0} (l : Local fd P) where
  drop_found-Local : (name : ℕ) (found : Option ℕ) → Leads P P E (drop_found name found)
  unfolding drop_found modify_group
  drop_found-Local name none = pure-Leads tt
  drop_found-Local name (some j) = record { out = λ w. l.on_groups w _ w.names }

  pub leave_groups-Local : (names : List ℕ) → Leads P P E (leave_groups fd names)
  unfolding leave_groups get_group
  leave_groups-Local [] = pure-Leads tt
  leave_groups-Local (name ∷ names) =
      bind-Leads (look-Leads (λ w. w.groups name))
        λ g. then-Leads (drop_found-Local name (index_of fd g.clnts)) (leave_groups-Local names)

  pub destroy-Local : Stable P → Ends P P E (destroy fd)
  unfolding destroy
  destroy-Local s =
      bind-Ends (get_client-Ends fd)
        λ c. then-Ends (Leads-Ends (leave_groups-Local c.groups)) (drop_walked-Ends s _)
