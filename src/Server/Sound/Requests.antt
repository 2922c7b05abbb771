-- ===== src/Server/Sound/Requests.antt =====
-- The requests of a connected client, and the invariant about the links and the table.
use dime.Base.{ℕ, ◌≤◌, ◌≡◌, ap, sym, ◌∙◌, true, false, List, [], arith, ℕ_discrete}
use dime.World.{World, elem, unknown_command}
use dime.World.Links.{Stable, Calm, Stable-Calm}
use dime.World.After.{Ends, Holds, Leads-Ends, both-Ends, change-Ends, fail-Holds}
use dime.Client.Groups.Counts.{count}
use dime.Client.Groups.Linked.{Linked, Linked-Stable}
use dime.Client.Groups.Joined.{join-Linked}
use dime.Client.Groups.Parted.{leave-Linked}
use dime.Client.Groups.Frame.{Local, join-Holds, leave-Holds}
use dime.Client.Messages.Links.{send-Holds, broadcast-Holds, sync-Holds, wait-Keeps}
use dime.Client.Session.Links.{handshake-Holds, devices-Keeps}
use dime.Request.{
  Request, handshake_request, join_request, leave_request, send_request, broadcast_request,
  sync_request, wait_request, devices_request, other_request, dispatch, serve,
}
use dime.Request.Serve.{serve-Ends}
use dime.Server.Sound.{Sound}

-- What the requests of the connected client `fd` to join and to leave do not touch.
record Around (fd : ℕ) (w : World) : Type 0 where
  connected : elem fd w.fds ≡ true
  members_open : (k : ℕ) → elem k w.fds ≡ false → (w.clients k).groups ≡ []
  listed_once : (k : ℕ) → count k w.fds ≤ 1

Around-Stable : (fd : ℕ) → Stable (Around fd)
Around-Stable fd = record {
  move = λ w w' s a. record {
    connected = ap (elem fd) s.same_fds ∙ a.connected;
    members_open = λ k gone. s.groups_of k ∙ a.members_open k (ap (elem k) (sym s.same_fds) ∙ gone);
    listed_once = λ k. ground (arith, ap (count k) s.same_fds, a.listed_once k);
  };
}

Around-Local : (fd : ℕ) → Local fd (Around fd)
Around-Local fd = record {
  calm = Stable-Calm (Around-Stable fd);
  on_groups = λ w groups names a. record {
    connected = a.connected;
    members_open = a.members_open;
    listed_once = a.listed_once;
  };
  on_client = λ w f q a. record {
    connected = a.connected;
    members_open = λ k gone. elim (ℕ_discrete k fd) [
      | yes here ↦ cc (gone, a.connected, ap (λ x. elem x w.fds) here)
      | no away ↦ ground (arith, a.members_open k gone)
    ];
    listed_once = a.listed_once;
  };
}

Serving : ℕ → World → Type 0
Serving fd w = Linked w × Around fd w

Serving-Stable : (fd : ℕ) → Stable (Serving fd)
unfolding Serving
Serving-Stable fd = record {
  move = λ w w' s (l, a). (Linked-Stable.move w w' s l, (Around-Stable fd).move w w' s a);
}

module _ (fd : ℕ) where
  calm : Calm (Serving fd)
  calm = Stable-Calm (Serving-Stable fd)

  dispatch-Holds : (request : Request) → Holds (Serving fd) (dispatch fd request)
  unfolding dispatch Serving
  dispatch-Holds (handshake_request args result) = handshake-Holds calm fd args result
  dispatch-Holds (join_request names) =
      both-Ends (Leads-Ends (record { out = join-Linked fd names }))
        (join-Holds (Around-Local fd) names)
  dispatch-Holds (leave_request names) =
      both-Ends (Leads-Ends (record { out = leave-Linked fd names }))
        (leave-Holds (Around-Local fd) names)
  dispatch-Holds (send_request name jsondata bindata) =
      send-Holds (Serving-Stable fd) fd name jsondata bindata
  dispatch-Holds (broadcast_request jsondata bindata) =
      broadcast-Holds (Serving-Stable fd) fd jsondata bindata
  dispatch-Holds (sync_request n) = sync-Holds (Serving-Stable fd) fd n
  dispatch-Holds wait_request = Leads-Ends (wait-Keeps calm fd)
  dispatch-Holds devices_request = Leads-Ends (devices-Keeps calm fd)
  dispatch-Holds other_request = fail-Holds calm fd unknown_command

-- Sound, and with `fd` in the table of clients.
abbrev pub Present : ℕ → World → Type 0
Present fd w = Sound w × (elem fd w.fds ≡ true)

serving : (fd : ℕ) (w : World) → Present fd w → Serving fd w
unfolding Serving
serving fd w (h, connected) = (
  h.linked,
  record { connected = connected; members_open = h.members_open; listed_once = h.listed_once },
)

served : (fd : ℕ) (w : World) → Serving fd w → Present fd w
unfolding Serving
served fd w (l, a) =
    (record { linked = l; members_open = a.members_open; listed_once = a.listed_once }, a.connected)

pub dispatch-Present : (fd : ℕ) (request : Request) → Holds (Present fd) (dispatch fd request)
dispatch-Present fd request =
    change-Ends (serving fd) (served fd) (served fd) (dispatch-Holds fd request)

pub serve-Present :
    {E : World → Type 0} (fd : ℕ) (requests : List Request)
    → Ends (Present fd) (Present fd) E (serve fd requests)
serve-Present fd requests = serve-Ends fd requests (dispatch-Present fd)

-- What neither the links nor the queues have to do with.
module _ {P : World → Type 0} (fd : ℕ) (s : Stable P) (l : Local fd P) where
  dispatch-Local : (request : Request) → Holds P (dispatch fd request)
  unfolding dispatch
  dispatch-Local (handshake_request args result) = handshake-Holds (Stable-Calm s) fd args result
  dispatch-Local (join_request names) = join-Holds l names
  dispatch-Local (leave_request names) = leave-Holds l names
  dispatch-Local (send_request name jsondata bindata) = send-Holds s fd name jsondata bindata
  dispatch-Local (broadcast_request jsondata bindata) = broadcast-Holds s fd jsondata bindata
  dispatch-Local (sync_request n) = sync-Holds s fd n
  dispatch-Local wait_request = Leads-Ends (wait-Keeps (Stable-Calm s) fd)
  dispatch-Local devices_request = Leads-Ends (devices-Keeps (Stable-Calm s) fd)
  dispatch-Local other_request = fail-Holds (Stable-Calm s) fd unknown_command

  pub serve-Local : {E : World → Type 0} (requests : List Request) → Ends P P E (serve fd requests)
  serve-Local requests = serve-Ends fd requests dispatch-Local
