-- ===== src/Client/Session/Devices.antt =====
-- What `dime_client_devices` lists.
use dime.Base.{ℕ, ◌≡◌, refl, List, [], ◌∷◌, ◌==◌, if◌then◌else◌, length, Bool-cases, inl, inr}
use dime.World.{World, Group, ok, pure, ◌>>=◌, ◌>>◌, devices_reply}
use dime.World.Granted.{sent_to, require-alloc, require-push}
use dime.Client.Groups.{get_group}
use dime.Client.Session.{list_groups, get_names, devices}

-- The names whose groups have clients, in their order.
pub occupied : (ℕ → Group) → List ℕ → List ℕ
occupied groups [] = []
occupied groups (name ∷ names) =
    let rest = occupied groups names in
    if length (groups name).clnts == 0 then rest else name ∷ rest

list_groups-occupied :
    (w : World) (fd : ℕ) (names : List ℕ)
    → w.grants ≡ []
    → list_groups fd names w ≡ (ok (occupied w.groups names), w)
unfolding list_groups get_group occupied pure ◌>>=◌ ◌>>◌
list_groups-occupied w fd [] g = refl
list_groups-occupied w fd (name ∷ names) g = elim (Bool-cases (length (w.groups name).clnts == 0)) [
  | inl none ↦ rw none (list_groups-occupied w fd names g)
  | inr some ↦
      rw (some, require-alloc w g fd, require-alloc w g fd, list_groups-occupied w fd names g) refl
]

-- Where memory is granted, `dime_client_devices` changes nothing but the client's socket, which gets
-- the names of the groups that have clients, each once for each time that the table lists it, and no
-- others.
pub devices_lem :
    (w : World) (fd : ℕ)
    → w.grants ≡ []
    → devices fd w ≡ (ok tt, sent_to fd (devices_reply (occupied w.groups w.names)) w)
unfolding devices get_names ◌>>=◌ ◌>>◌
devices_lem w fd g =
    rw
      (
        require-alloc w g fd,
        list_groups-occupied w fd w.names g,
        require-alloc w g fd,
        require-push w g fd fd (devices_reply (occupied w.groups w.names)),
      )
      refl
