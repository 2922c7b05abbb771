-- ===== src/Client/Groups/Frame.antt =====
-- What `dime_client_join` and `_leave` may change: the groups' arrays, the names and one client.
use dime.Base.{◌≡◌, refl, ℕ, Option, none, some, List, [], ◌∷◌, leb, length}
use dime.World.{
  World, Client, Group, update, elem, alloc, modify_client, modify_group, require, json_parsing,
  already_in_group, not_in_group, expected_string, status_ok,
}
use dime.World.Links.{Calm}
use dime.World.After.{
  Ends, Holds, bind-Ends, then-Ends, if-Ends, pure-Ends, abort-Ends, look-Ends, require-alloc-Holds,
  require-push-Holds, fail-Holds,
}
use dime.Client.Groups.{
  set_groups_cap, add_name, drop_name, index_of, get_client, get_group, is_known, add_group,
  create_group, open_group, grow_groups, grow_clnts, link, join_new, join_name, join_one, join_all,
  join, unlink, leave_group, leave_found, leave_name, leave_one, leave_all, leave,
}

-- A property of what the requests of `fd` to join and to leave do not touch.
pub record Local (fd : ℕ) (P : World → Type 0) : Type 0 where
  pub calm : Calm P
  pub on_groups :
      (w : World) (groups : ℕ → Group) (names : List ℕ)
      → P w
      → P (record w { groups = groups; names = names })
  pub on_client :
      (w : World) (f : Client → Client)
      → ((c : Client) → (f c).queue ≡ c.queue)
      → P w
      → P (record w { clients = update w.clients fd (f (w.clients fd)) })

pub get_client-Ends : {P E : World → Type 0} (fd : ℕ) → Ends P P E (get_client fd)
unfolding get_client
get_client-Ends fd = look-Ends (λ w. w.clients fd)

pub get_group-Ends : {P E : World → Type 0} (name : ℕ) → Ends P P E (get_group name)
unfolding get_group
get_group-Ends name = look-Ends (λ w. w.groups name)

pub is_known-Ends : {P E : World → Type 0} (name : ℕ) → Ends P P E (is_known name)
unfolding is_known
is_known-Ends name = look-Ends (λ w. elem name w.names)

module _ {fd : ℕ} {P : World → Type 0} (l : Local fd P) where
  grant-Holds : Holds P (require fd alloc)
  grant-Holds = require-alloc-Holds l.calm fd

  group-Holds : (name : ℕ) (f : Group → Group) → Holds P (modify_group name f)
  unfolding modify_group
  group-Holds name f = record {
    out = λ w. l.on_groups w (update w.groups name (f (w.groups name))) w.names;
  }

  client-Holds :
      (f : Client → Client) → ((c : Client) → (f c).queue ≡ c.queue) → Holds P (modify_client fd f)
  unfolding modify_client
  client-Holds f q = record { out = λ w. l.on_client w f q }

  add_group-Holds : (name : ℕ) → Holds P (add_group name)
  unfolding add_group
  add_group-Holds name = record { out = λ w. l.on_groups w _ _ }

  create_group-Holds : (name : ℕ) → Holds P (create_group fd name)
  unfolding create_group
  create_group-Holds name =
      then-Ends grant-Holds (
        then-Ends grant-Holds
          (then-Ends grant-Holds (then-Ends grant-Holds (add_group-Holds name))))

  open_group-Holds : (name : ℕ) → Holds P (open_group fd name)
  unfolding open_group
  open_group-Holds name =
      bind-Ends (is_known-Ends name)
        (λ known. if-Ends known (pure-Ends tt) (create_group-Holds name))

  grow_groups-Holds : Holds P (grow_groups fd)
  unfolding grow_groups set_groups_cap
  grow_groups-Holds = bind-Ends (get_client-Ends fd) λ c.
      if-Ends (leb c.groups_cap (length c.groups))
        (then-Ends grant-Holds (client-Holds _ (λ c. refl))) (pure-Ends tt)

  grow_clnts-Holds : (name : ℕ) → Holds P (grow_clnts fd name)
  unfolding grow_clnts
  grow_clnts-Holds name = bind-Ends (get_group-Ends name) λ g.
      if-Ends (leb g.clnts_cap (length g.clnts)) (then-Ends grant-Holds (group-Holds name _))
        (pure-Ends tt)

  join_new-Holds : (name : ℕ) → Holds P (join_new fd name)
  unfolding join_new link add_name
  join_new-Holds name = then-Ends (open_group-Holds name) (
      then-Ends grow_groups-Holds (
        then-Ends (grow_clnts-Holds name)
          (then-Ends (client-Holds _ (λ c. refl)) (group-Holds name _))))

  join_one-Holds : (v : Option ℕ) → Holds P (join_one fd v)
  unfolding join_one join_name
  join_one-Holds none = fail-Holds l.calm fd expected_string
  join_one-Holds (some name) = bind-Ends (get_client-Ends fd) λ c.
      if-Ends (elem name c.groups) (fail-Holds l.calm fd (already_in_group name))
        (join_new-Holds name)

  join_all-Holds : (vs : List (Option ℕ)) → Holds P (join_all fd vs)
  unfolding join_all
  join_all-Holds [] = pure-Ends tt
  join_all-Holds (v ∷ vs) = then-Ends (join_one-Holds v) (join_all-Holds vs)

  pub join-Holds : (arr : Option (List (Option ℕ))) → Holds P (join fd arr)
  unfolding join
  join-Holds none = fail-Holds l.calm fd json_parsing
  join-Holds (some arr) = then-Ends (join_all-Holds arr) (require-push-Holds l.calm fd fd status_ok)

  leave_group-Holds : (name i : ℕ) (found : Option ℕ) → Holds P (leave_group fd name i found)
  unfolding leave_group unlink drop_name
  leave_group-Holds name i none = abort-Ends
  leave_group-Holds name i (some j) = then-Ends (group-Holds name _) (client-Holds _ (λ c. refl))

  leave_found-Holds : (name : ℕ) (found : Option ℕ) → Holds P (leave_found fd name found)
  unfolding leave_found
  leave_found-Holds name none = fail-Holds l.calm fd (not_in_group name)
  leave_found-Holds name (some i) =
      bind-Ends (get_group-Ends name) (λ g. leave_group-Holds name i (index_of fd g.clnts))

  leave_one-Holds : (v : Option ℕ) → Holds P (leave_one fd v)
  unfolding leave_one leave_name
  leave_one-Holds none = fail-Holds l.calm fd expected_string
  leave_one-Holds (some name) =
      bind-Ends (get_client-Ends fd) (λ c. leave_found-Holds name (index_of name c.groups))

  leave_all-Holds : (vs : List (Option ℕ)) → Holds P (leave_all fd vs)
  unfolding leave_all
  leave_all-Holds [] = pure-Ends tt
  leave_all-Holds (v ∷ vs) = then-Ends (leave_one-Holds v) (leave_all-Holds vs)

  pub leave-Holds : (arr : Option (List (Option ℕ))) → Holds P (leave fd arr)
  unfolding leave
  leave-Holds none = fail-Holds l.calm fd json_parsing
  leave-Holds (some arr) =
      then-Ends (leave_all-Holds arr) (require-push-Holds l.calm fd fd status_ok)
