-- ===== src/Client/Groups/Joined.antt =====
-- Clients and groups point at each other: the invariant that `dime_client_join` keeps, on every path,
-- with any failure of memory.
use dime.Base.{
  ℕ, ◌≡◌, refl, ap, ◌∙◌, Bool, true, false, Option, none, some, List, [], ◌∷◌, arith, leb, length,
  Bool-cases, inl, inr,
}
use dime.World.{
  World, ◌>>=◌, ◌>>◌, elem, alloc, modify_client, modify_group, require, already_in_group,
  expected_string, json_parsing,
}
use dime.World.Logic.{Post, Leads, Keeps, then-Leads, pure-Leads, if-Leads, weaken-Leads}
use dime.World.Links.{
  Stable, Calm, Stable-Calm, alloc-Keeps, modify_client-Keeps, modify_group-Keeps, fail-Leads,
  require-Keeps,
}
use dime.Client.Groups.{
  get_client, get_group, is_known, add_group, create_group, open_group, set_groups_cap,
  set_clnts_cap, grown, grow_groups, grow_clnts, add_name, add_clnt, link, join_new, join_name,
  join_one, join_all, join,
}
use dime.Client.Groups.Counts.{count, count-append, elem-false, elem-append}
use dime.Client.Groups.Linked.{Linked, Linked-Stable, linked, answer-Keeps}

-- Before `fd` joins `name`, and with that group in the table or not.
record Apart (fd name : ℕ) (w : World) : Type 0 where
  linked : Linked w
  absent : count name (w.clients fd).groups ≡ 0

record Opened (b : Bool) (fd name : ℕ) (w : World) : Type 0 where
  apart : Apart fd name w
  listed : elem name w.names ≡ b

Apart-Stable : (fd name : ℕ) → Stable (Apart fd name)
Apart-Stable fd name = record {
  move = λ w w' s a. record {
    linked = Linked-Stable.move w w' s a.linked;
    absent = ap (count name) (s.groups_of fd) ∙ a.absent;
  };
}

Opened-Stable : (b : Bool) (fd name : ℕ) → Stable (Opened b fd name)
Opened-Stable b fd name = record {
  move = λ w w' s o. record {
    apart = (Apart-Stable fd name).move w w' s o.apart;
    listed = ap (elem name) s.same_names ∙ o.listed;
  };
}

-- A name that is not in the table has no clients yet, so a new group changes no link.
add_group-Leads :
    (fd name : ℕ) → Leads (Opened false fd name) (Opened true fd name) Linked (add_group name)
unfolding add_group
add_group-Leads fd name = record {
  out = λ w o.
      let none_yet = o.apart.linked.known name o.listed in
      record {
        apart = record {
          linked = record {
            both = λ k n. ground (arith, o.apart.linked.both k n, ap (count k) none_yet);
            once = o.apart.linked.once;
            known =
                λ n h. ground (arith, o.apart.linked.known n, elem-append n w.names (name ∷ []));
          };
          absent = o.apart.absent;
        };
        listed = ground (arith, elem-append name w.names (name ∷ []));
      };
}

forget : (b : Bool) (fd name : ℕ) (w : World) → Opened b fd name w → Linked w
forget b fd name w o = o.apart.linked

module _ (fd name : ℕ) where
  create_group-Leads :
      Leads (Opened false fd name) (Opened true fd name) Linked (create_group fd name)
  unfolding create_group
  create_group-Leads =
      then-Leads grant
        (then-Leads grant (then-Leads grant (then-Leads grant (add_group-Leads fd name))))
    where
      s : Calm (Opened false fd name)
      s = Stable-Calm (Opened-Stable false fd name)

      grant : Leads (Opened false fd name) (Opened false fd name) Linked (require fd alloc)
      grant = weaken-Leads (forget false fd name) (require-Keeps s fd (alloc-Keeps s))

  open_group-Leads : Leads (Apart fd name) (Opened true fd name) Linked (open_group fd name)
  unfolding open_group is_known ◌>>=◌
  open_group-Leads = record {
    out = λ w a. elim (Bool-cases (elem name w.names)) [
      | inl here ↦ rw here ((pure-Leads tt).out w (record { apart = a; listed = here }))
      | inr new ↦ rw new (create_group-Leads.out w (record { apart = a; listed = new }))
    ];
  }

  opened : Calm (Opened true fd name)
  opened = Stable-Calm (Opened-Stable true fd name)

  grow_groups-Keeps : Keeps (Opened true fd name) (grow_groups fd)
  unfolding grow_groups get_client ◌>>=◌ set_groups_cap
  grow_groups-Keeps = record {
    out = λ w o.
        (if-Leads (leb (w.clients fd).groups_cap (length (w.clients fd).groups))
            (then-Leads (require-Keeps opened fd (alloc-Keeps opened)) (
              modify_client-Keeps opened fd (set_groups_cap (grown (w.clients fd).groups_cap))
                (λ c. refl) (λ c. refl)))
            (pure-Leads tt)).out
          w o;
  }

  grow_clnts-Keeps : Keeps (Opened true fd name) (grow_clnts fd name)
  unfolding grow_clnts get_group ◌>>=◌ set_clnts_cap
  grow_clnts-Keeps = record {
    out = λ w o.
        (if-Leads (leb (w.groups name).clnts_cap (length (w.groups name).clnts))
            (then-Leads (require-Keeps opened fd (alloc-Keeps opened)) (
              modify_group-Keeps opened name (set_clnts_cap (grown (w.groups name).clnts_cap))
                (λ g. refl)))
            (pure-Leads tt)).out
          w o;
  }

link-Leads : (fd name : ℕ) → Leads (Opened true fd name) Linked Linked (link fd name)
unfolding link modify_client modify_group add_name add_clnt ◌>>◌ ◌>>=◌
link-Leads fd name = record {
  out = λ w o. record {
    both = λ k n. ground (
      arith,
      o.apart.linked.both k n,
      o.apart.linked.both fd name,
      count-append n (w.clients fd).groups (name ∷ []),
      count-append k (w.groups name).clnts (fd ∷ []),
    );
    once = λ k n. ground (
      arith,
      o.apart.linked.once k n,
      o.apart.absent,
      count-append n (w.clients fd).groups (name ∷ []),
    );
    known = λ n h. ground (arith, o.apart.linked.known n, o.listed);
  };
}

join_new-Leads : (fd name : ℕ) → Leads (Apart fd name) Linked Linked (join_new fd name)
unfolding join_new
join_new-Leads fd name = then-Leads (open_group-Leads fd name) (
    then-Leads (weaken-Leads (forget true fd name) (grow_groups-Keeps fd name)) (
      then-Leads (weaken-Leads (forget true fd name) (grow_clnts-Keeps fd name))
        (link-Leads fd name)))

join_name-Keeps : (fd name : ℕ) → Keeps Linked (join_name fd name)
unfolding join_name get_client ◌>>=◌
join_name-Keeps fd name = record {
  out = λ w l. elim (Bool-cases (elem name (w.clients fd).groups)) [
    | inl member ↦ rw member ((fail-Leads linked fd (already_in_group name)).out w l)
    | inr apart ↦ rw apart (
        (join_new-Leads fd name).out w
          (record { linked = l; absent = elem-false name (w.clients fd).groups apart }))
  ];
}

join_one-Keeps : (fd : ℕ) (v : Option ℕ) → Keeps Linked (join_one fd v)
unfolding join_one
join_one-Keeps fd none = fail-Leads linked fd expected_string
join_one-Keeps fd (some name) = join_name-Keeps fd name

join_all-Keeps : (fd : ℕ) (vs : List (Option ℕ)) → Keeps Linked (join_all fd vs)
unfolding join_all
join_all-Keeps fd [] = pure-Leads tt
join_all-Keeps fd (v ∷ vs) = then-Leads (join_one-Keeps fd v) (join_all-Keeps fd vs)

-- `dime_client_join` keeps clients and groups linked, whatever names the request holds and whatever
-- memory is granted: where it ends with 0, and also where it fails half way. It meets no failed
-- assertion.
pub join-Linked :
    (fd : ℕ) (arr : Option (List (Option ℕ))) (w : World)
    → Linked w
    → Post Linked Linked (join fd arr w)
unfolding join
join-Linked fd none w l = (fail-Leads linked fd json_parsing).out w l
join-Linked fd (some arr) w l = (then-Leads (join_all-Keeps fd arr) (answer-Keeps fd)).out w l
