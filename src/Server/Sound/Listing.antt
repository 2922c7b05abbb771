-- ===== src/Server/Sound/Listing.antt =====
-- Clients that go, and properties of what the table of clients lists.
use dime.Base.{ℕ, ◌≡◌, refl}
use dime.World.{World, modify_client}
use dime.World.Links.{Stable, Stable-Calm}
use dime.World.After.{Ends, then-Ends, pure-Ends}
use dime.Client.Groups.Frame.{Local}
use dime.Client.Session.Teardown.{destroy-Local}
use dime.Server.{remove_fd, release, discard, hang_up}

-- A property of the table of clients alone.
abbrev pub OfFds : (World → Type 0) → Type 0
OfFds P = (w w' : World) → w'.fds ≡ w.fds → P w → P w'

pub fds-Stable : {P : World → Type 0} → OfFds P → Stable P
fds-Stable h = record { move = λ w w' s. h w w' s.same_fds }

pub fds-Local : {P : World → Type 0} (fd : ℕ) → OfFds P → Local fd P
fds-Local fd h = record {
  calm = Stable-Calm (fds-Stable h);
  on_groups = λ w groups names. h w _ refl;
  on_client = λ w f q. h w _ refl;
}

module _ {P E : World → Type 0} (fd : ℕ) (h : OfFds P) where
  release_fds : Ends P P E (release fd)
  unfolding release modify_client
  release_fds = record { out = λ w p. h w _ refl p }

  pub discard_fds : Ends P P E (discard fd)
  unfolding discard
  discard_fds = then-Ends (destroy-Local (fds-Local fd h) (fds-Stable h)) release_fds

-- Who hangs up changes the table by its own entry.
pub hang_up_fds :
    {P Q E : World → Type 0} (fd : ℕ)
    → OfFds Q
    → Ends P Q E (remove_fd fd)
    → Ends P Q E (hang_up fd)
unfolding hang_up
hang_up_fds fd h r = then-Ends r (then-Ends (discard_fds fd h) (pure-Ends _))
