-- ===== src/Client/Groups.antt =====
-- `dime_client_join` and `dime_client_leave`. A name that is no JSON string is `none`; a "name" that
-- is no array has no elements.
pub mod Counts
pub mod Linked
pub mod Joined
pub mod Parted
pub mod Frame
use dime.Base.{
  ℕ, zero, suc, ◌+◌, ◌-◌, ◌*◌, ◌/◌, Bool, true, false, Option, none, some, List, [], ◌∷◌, ◌++◌, ltb,
  leb, ◌==◌, if◌then◌else◌, get_or, set, take, length, mul_size,
}
use dime.World.{
  World, Client, Group, M, pure, ◌>>=◌, ◌>>◌, update, elem, alloc, modify_client, modify_group,
  push, fail, abort, require, ok, expected_string, already_in_group, not_in_group, json_parsing,
  status_ok,
}

-- The first index of an entry: the search loops over an array.
pub index_of : ℕ → List ℕ → Option ℕ
index_of x [] = none
index_of x (y ∷ ys) =
    if y == x then some 0 else (elim (index_of x ys) [ none ↦ none | some i ↦ some (i + 1) ])

-- `n--; arr[i] = arr[n];`
pub swap_remove : ℕ → List ℕ → List ℕ
swap_remove i xs = take (length xs - 1) (set xs i (get_or xs (length xs - 1) 0))

unfoldable pub get_client : ℕ → M Client
get_client fd w = (ok (w.clients fd), w)

unfoldable pub get_group : ℕ → M Group
get_group name w = (ok (w.groups name), w)

unfoldable pub is_known : ℕ → M Bool
is_known name w = (ok (elem name w.names), w)

-- A new entry of `name2clnt`, for a group with no clients.
add_group : ℕ → M (Unit {0})
add_group name w = (
  ok tt,
  record w {
    groups = update w.groups name (record { clnts = []; clnts_cap = 4 });
    names = w.names ++ (name ∷ []);
  },
)

-- Its structure, its name, its array and its entry in the table each need memory.
create_group : ℕ → ℕ → M (Unit {0})
create_group fd name = do
  require fd alloc
  require fd alloc
  require fd alloc
  require fd alloc
  add_group name

-- The search for the group, which is created if it is not there.
open_group : ℕ → ℕ → M (Unit {0})
open_group fd name = do known ← is_known name; if known then pure tt else create_group fd name

grown : ℕ → ℕ
grown cap = mul_size cap 3 / 2

set_groups_cap : ℕ → Client → Client
set_groups_cap n c = record c { groups_cap = n }

set_clnts_cap : ℕ → Group → Group
set_clnts_cap n g = record g { clnts_cap = n }

-- Room for one more group of the client, and one more client of the group.
grow_groups : ℕ → M (Unit {0})
grow_groups fd = do
  c ← get_client fd
  if leb c.groups_cap (length c.groups)
      then require fd alloc >> modify_client fd (set_groups_cap (grown c.groups_cap))
      else pure tt

grow_clnts : ℕ → ℕ → M (Unit {0})
grow_clnts fd name = do
  g ← get_group name
  if leb g.clnts_cap (length g.clnts)
      then require fd alloc >> modify_group name (set_clnts_cap (grown g.clnts_cap))
      else pure tt

add_name : ℕ → Client → Client
add_name name c = record c { groups = c.groups ++ (name ∷ []) }

add_clnt : ℕ → Group → Group
add_clnt fd g = record g { clnts = g.clnts ++ (fd ∷ []) }

-- Each of the two is put at the end of the other's array.
link : ℕ → ℕ → M (Unit {0})
link fd name = do modify_client fd (add_name name); modify_group name (add_clnt fd)

-- What the body of the loop does with a client that is not in the group.
join_new : ℕ → ℕ → M (Unit {0})
join_new fd name = do open_group fd name; grow_groups fd; grow_clnts fd name; link fd name

join_name : ℕ → ℕ → M (Unit {0})
join_name fd name = do
  c ← get_client fd
  if elem name c.groups then fail fd (already_in_group name) else join_new fd name

-- The body of the loop of `dime_client_join`.
join_one : ℕ → Option ℕ → M (Unit {0})
join_one fd none = fail fd expected_string
join_one fd (some name) = join_name fd name

join_all : ℕ → List (Option ℕ) → M (Unit {0})
join_all fd [] = pure tt
join_all fd (v ∷ vs) = join_one fd v >> join_all fd vs

-- `dime_client_join`
pub join : ℕ → Option (List (Option ℕ)) → M (Unit {0})
join fd none = fail fd json_parsing
join fd (some arr) = join_all fd arr >> require fd (push fd status_ok)

drop_name : ℕ → Client → Client
drop_name i c = record c { groups = swap_remove i c.groups }

unfoldable pub drop_clnt : ℕ → Group → Group
drop_clnt j g = record g { clnts = swap_remove j g.clnts }

-- Each of the two is taken out of the other's array.
unlink : ℕ → ℕ → ℕ → ℕ → M (Unit {0})
unlink fd name i j = do modify_group name (drop_clnt j); modify_client fd (drop_name i)

-- The search among the group's clients, whose failure is the assertion's.
leave_group : ℕ → ℕ → ℕ → Option ℕ → M (Unit {0})
leave_group fd name i none = abort
leave_group fd name i (some j) = unlink fd name i j

-- The search among the client's groups.
leave_found : ℕ → ℕ → Option ℕ → M (Unit {0})
leave_found fd name none = fail fd (not_in_group name)
leave_found fd name (some i) = do g ← get_group name; leave_group fd name i (index_of fd g.clnts)

leave_name : ℕ → ℕ → M (Unit {0})
leave_name fd name = do c ← get_client fd; leave_found fd name (index_of name c.groups)

-- The body of the loop of `dime_client_leave`.
leave_one : ℕ → Option ℕ → M (Unit {0})
leave_one fd none = fail fd expected_string
leave_one fd (some name) = leave_name fd name

leave_all : ℕ → List (Option ℕ) → M (Unit {0})
leave_all fd [] = pure tt
leave_all fd (v ∷ vs) = leave_one fd v >> leave_all fd vs

-- `dime_client_leave`
pub leave : ℕ → Option (List (Option ℕ)) → M (Unit {0})
leave fd none = fail fd json_parsing
leave fd (some arr) = leave_all fd arr >> require fd (push fd status_ok)
