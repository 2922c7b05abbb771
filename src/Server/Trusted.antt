-- ===== src/Server/Trusted.antt =====
-- The requests of a connected client where memory is granted.
pub mod Clients
pub mod Delivered
pub mod Welcome
pub mod Visits
pub mod Watching
use dime.Base.{
  ℕ, suc, ◌+◌, ◌≤◌, ◌<◌, ◌^◌, ◌≡◌, refl, ap, sym, ◌∙◌, Bool, true, false, Option, none, some, List,
  [], ◌∷◌, arith, length,
}
use dime.World.{World, Outcome, M, elem, update, fail, unknown_command, json_parsing}
use dime.World.Logic.{Post, Leads, change-Post}
use dime.World.Links.{Calm, fail-Leads, stop-Leads}
use dime.World.After.{End, Post-and-End}
use dime.Client.Groups.{join, leave}
use dime.Client.Groups.Counts.{count}
use dime.Client.Groups.Linked.{Linked}
use dime.Client.Groups.Joined.{join-Linked}
use dime.Client.Groups.Parted.{leave-Linked}
use dime.Client.Groups.Frame.{join-Holds, leave-Holds}
use dime.Client.Messages.{send, sync}
use dime.Client.Messages.Links.{wait-Keeps}
use dime.Client.Messages.Counted.{Counted}
use dime.Client.Messages.Safe.{
  Bounded, Bounded-Calm, Bounded-Local, quiet-Bounded, send_unread-Bounded, send-Bounded,
  broadcast-Bounded,
}
use dime.Client.Messages.Handed.{sync-Bounded, sync_unread-Bounded}
use dime.Client.Session.Links.{asserts, handshake-Keeps, devices-Keeps}
use dime.Request.{
  Request, handshake_request, join_request, leave_request, send_request, broadcast_request,
  sync_request, wait_request, devices_request, other_request, dispatch, serve,
}
use dime.Request.Serve.{EachIs, serve-Leads}
use dime.Server.Sound.{Sound, Sound-open}
use dime.Server.Sound.Requests.{Present, dispatch-Present}

-- A sound server that counts its messages, of which there have been at most `n`, and the client `fd` in
-- its table.
abbrev pub Trusted : ℕ → ℕ → World → Type 0
Trusted fd n w = Bounded n w × Present fd w

-- A request that does not come to the assertion of `dime_socket_init_tls`: it does not ask for TLS while
-- the socket holds more bytes.
abbrev pub WellRead : Request → Type 0
WellRead (handshake_request args result) = asserts args result ≡ false
WellRead _ = Unit {0}

module _ (fd n : ℕ) (w : World) (t : Trusted fd n w) (early : n < 2 ^ 60) where
  abbrev Counts : Outcome (Unit {0}) × World → Type 0
  Counts = Post (Bounded (suc n)) (Bounded (suc n))

  pub members_once : (name k : ℕ) → count k (w.groups name).clnts ≤ 1
  members_once name k = omega (arith, t.1.0.linked.both k name, t.1.0.linked.once k name)

  joined :
      (out : Outcome (Unit {0}) × World)
      → Post Linked Linked out
      → End (Bounded n) (Bounded n) out
      → Counts out
  joined out p e =
      change-Post (λ v. Linked v × Bounded n v) _ (λ v. Linked v × Bounded n v) _ out
        (λ v x. (x.1.0, omega (arith, x.1.1))) (λ v x. (x.1.0, omega (arith, x.1.1)))
        (Post-and-End Linked (Bounded n) Linked (Bounded n) out p e)

  send-Counts :
      (name : Option ℕ) (jsondata bindata : List ℕ) → Counts (send fd name jsondata bindata w)
  send-Counts none jsondata bindata =
      quiet-Bounded n _ (send_unread-Bounded n fd jsondata bindata w t.0)
  send-Counts (some name) jsondata bindata =
      send-Bounded w n t.0 early t.1.0.listed_once fd name jsondata bindata (members_once name)
        (λ k e. Sound-open w k name t.1.0 e)

  dispatch-Counts : (request : Request) → WellRead request → Counts (dispatch fd request w)
  unfolding dispatch
  dispatch-Counts (handshake_request args result) whole =
      quiet-Bounded n _ ((handshake-Keeps (Bounded-Calm n) fd args result whole).out w t.0)
  dispatch-Counts (join_request names) whole =
      joined _ (join-Linked fd names w t.1.0.linked)
        ((join-Holds (Bounded-Local fd n) names).out w t.0)
  dispatch-Counts (leave_request names) whole =
      joined _ (leave-Linked fd names w t.1.0.linked)
        ((leave-Holds (Bounded-Local fd n) names).out w t.0)
  dispatch-Counts (send_request name jsondata bindata) whole = send-Counts name jsondata bindata
  dispatch-Counts (broadcast_request jsondata bindata) whole =
      broadcast-Bounded w n t.0 early t.1.0.listed_once fd jsondata bindata
  dispatch-Counts (sync_request none) whole = quiet-Bounded n _ (sync_unread-Bounded n fd w t.0)
  dispatch-Counts (sync_request (some limited)) whole =
      quiet-Bounded n _ (sync-Bounded w n t.0 t.1.0.listed_once fd t.1.1 limited)
  dispatch-Counts wait_request whole =
      quiet-Bounded n _ ((wait-Keeps (Bounded-Calm n) fd).out w t.0)
  dispatch-Counts devices_request whole =
      quiet-Bounded n _ ((devices-Keeps (Bounded-Calm n) fd).out w t.0)
  dispatch-Counts other_request whole =
      quiet-Bounded n _ ((fail-Leads (Bounded-Calm n) fd unknown_command).out w t.0)

  dispatch-Trusted :
      (request : Request)
      → WellRead request
      → Post (Trusted fd (suc n)) (Trusted fd (suc n)) (dispatch fd request w)
  dispatch-Trusted request whole =
      Post-and-End (Bounded (suc n)) (Present fd) (Bounded (suc n)) (Present fd) _
        (dispatch-Counts request whole) ((dispatch-Present fd request).out w t.1)

-- Where memory is granted, the requests of a connected client, any number of any kind, meet no failed
-- assertion and no message that is freed, and none of them makes the loop return, unless one asks for TLS while the socket holds more bytes: afterwards the server
-- is sound again and each message counts at least its places in the queues of connected clients. The
-- queues of connected clients are valid before, and there are fewer than 2 ^ 60 messages in all.
pub serve-Trusted :
    (fd n : ℕ) (requests : List Request) (w : World)
    → n + length requests < 2 ^ 60
    → EachIs WellRead requests
    → Trusted fd n w
    → Post (Trusted fd (n + length requests)) (λ v. ⊥) (serve fd requests w)
serve-Trusted fd n requests w early whole t =
    (serve-Leads {P = Trusted fd} WellRead fd n requests whole (λ m request few well. record {
      out = λ v x. dispatch-Trusted fd m v x (omega arith) request well;
    })).out
      w t
