-- ===== src/Server/Events/Sound.antt =====
-- The callbacks of libev, and the invariant about the links, the table of clients and the watchers.
use dime.Base.{ℕ, ◌≡◌, ◌≢◌, ap, ◌∙◌, Bool, true, false, Option, none, some, arith, ℕ_discrete}
use dime.World.{World, M, elem}
use dime.World.Yields.{Yields, then-Yields, if-Yields, pure-Yields}
use dime.World.After.{Ends, both-Ends, change-Ends}
use dime.Server.{Io, remove_fd, hang_up}
use dime.Server.Sound.Gone.{elem-without_other, hang_up-Sound}
use dime.Server.Events.{
  Watchers, Fired, going_on, stop_both, stop_writing, close_client, wrote, client_writable,
  client_readable,
}
use dime.Server.Sound.Listing.{fds-Stable, fds-Local, hang_up_fds}
use dime.Server.Sound.Requests.{serve-Present, serve-Local}
use dime.Server.Sound.{Sound}

-- The watcher that reads from a client's socket is started.
abbrev pub Started : Watchers → ℕ → Type 0
Started a fd = a.reading fd ≡ true

-- Watchers that read are started for clients in the table alone.
unfoldable pub Watched : Watchers → World → Type 0
Watched a w = (fd : ℕ) → Started a fd → elem fd w.fds ≡ true

-- The client `fd` may have gone.
Seen : ℕ → Watchers → World → Type 0
Seen fd a w = (k : ℕ) → k ≢ fd → Started a k → elem k w.fds ≡ true

pub Watched-of : (a : Watchers) (w w' : World) → w'.fds ≡ w.fds → Watched a w → Watched a w'
unfolding Watched
Watched-of a w w' e h fd s = ap (elem fd) e ∙ h fd s

Seen-of : (fd : ℕ) (a : Watchers) (w w' : World) → w'.fds ≡ w.fds → Seen fd a w → Seen fd a w'
unfolding Seen
Seen-of fd a w w' e h k n s = ap (elem k) e ∙ h k n s

module _ (fd : ℕ) (a : Watchers) where
  remove_fd-Seen : {E : World → Type 0} → Ends (Watched a) (Seen fd a) E (remove_fd fd)
  unfolding remove_fd Watched Seen
  remove_fd-Seen = record { out = λ w h k n s. elem-without_other fd w.fds k n ∙ h k s }

  hang_up-Seen : {E : World → Type 0} → Ends (Watched a) (Seen fd a) E (hang_up fd)
  hang_up-Seen = hang_up_fds fd (Seen-of fd a) remove_fd-Seen

  stopped-Watched : (w : World) → Seen fd a w → Watched (stop_both fd a) w
  unfolding Seen Watched stop_both
  stopped-Watched w h k s = elim (ℕ_discrete k fd) [
    | yes here ↦ ground (arith, here)
    | no away ↦ h k away (ground arith)
  ]

-- A sound server that reads from clients in the table alone.
abbrev pub Safe : Watchers → World → Type 0
Safe a w = Sound w × Watched a w

-- What a callback leaves.
abbrev pub Left : Fired × Watchers → World → Type 0
Left out w = Safe out.1 w

-- Two arguments about one step, which returns no -1 or keeps `E`.
pub both :
    {A : Type 0} {P P' Q Q' E : World → Type 0} {m : M A}
    → Ends P Q E m
    → Ends P' Q' E m
    → Ends (λ w. P w × P' w) (λ w. Q w × Q' w) E m
both h h' = change-Ends (λ w p. p) (λ w q. q) (λ w e. e.0) (both-Ends h h')

module _ (fd : ℕ) (a : Watchers) where
  pub close_client-Safe : {E : World → Type 0} → Yields (Safe a) Left E (close_client fd a)
  unfolding close_client
  close_client-Safe =
      then-Yields (both (hang_up-Sound fd) (hang_up-Seen fd a))
        (pure-Yields (going_on, stop_both fd a) (λ w (h, seen). (h, stopped-Watched fd a w seen)))

  stop_writing-Safe : (w : World) → Safe a w → Safe (stop_writing fd a) w
  unfolding Watched stop_writing
  stop_writing-Safe w (h, watched) = (h, λ k s. watched k s)

  wrote-Safe : {E : World → Type 0} (sent : Option Bool) → Yields (Safe a) Left E (wrote fd sent a)
  unfolding wrote
  wrote-Safe none = close_client-Safe
  wrote-Safe (some true) = pure-Yields (going_on, stop_writing fd a) stop_writing-Safe
  wrote-Safe (some false) = pure-Yields (going_on, a) (λ w s. s)

  pub client_writable-Safe :
      {E : World → Type 0} (is_both : Bool) (sent : Option Bool)
      → Yields (Safe a) Left E (client_writable is_both sent fd a)
  unfolding client_writable
  client_writable-Safe is_both sent = if-Yields is_both close_client-Safe (wrote-Safe sent)

  pub client_readable-Safe :
      {E : World → Type 0} (is_both retried : Bool) (io : Io)
      → Yields
          (λ w. Safe a w × (elem fd w.fds ≡ true))
          Left
          E
          (client_readable is_both retried io fd a)
  unfolding client_readable
  client_readable-Safe {E} is_both retried io = if-Yields is_both closes (
      if-Yields io.received
        (then-Yields
          (change-Ends (λ w p. ((p.0.0, p.1), p.0.1)) (λ w q. (q.0.0, q.1)) (λ w e. e)
            (both (serve-Present fd io.requests) (
              serve-Local fd (fds-Stable (Watched-of a)) (fds-Local fd (Watched-of a))
                io.requests)))
          (pure-Yields _ (λ w s. s)))
        closes)
    where
      closes : Yields (λ w. Safe a w × (elem fd w.fds ≡ true)) Left E (close_client fd a)
      closes = record { out = λ w p. close_client-Safe.out w p.0 }
