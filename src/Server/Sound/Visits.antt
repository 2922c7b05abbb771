-- ===== src/Server/Sound/Visits.antt =====
-- The body of the loop over descriptors, and the invariant about the links and the table.
use dime.Base.{
  ℕ, ◌≡◌, ◌||◌, refl, Bool, false, not, ◌&&◌, ltb, Option, none, some, List, ◌++◌, arith, map,
  Bool-cases, inl, inr,
}
use dime.World.{World, M, ◌>>=◌, elem}
use dime.World.Links.{Stable-Calm, alloc-Keeps}
use dime.World.After.{
  Leads-Ends, End, Ends, Holds, bind-Ends, then-Ends, if-Ends, pure-Ends, abort-Ends, change-Ends,
  alloc-Holds, stop-Holds,
}
use dime.Client.Groups.Counts.{elem-append}
use dime.Client.Messages.{get_fds}
use dime.Client.Messages.Links.{get_fds-Ends}
use dime.Client.Session.Links.{or_stop-Keeps, init-Holds}
use dime.Server.{
  Protocol, ServerFd, Io, Visited, continued, went_on, find_listener, is_ws, watch_new, fd_setsize,
  enter, welcome, accept_from, admit, attend, read_new, read_part, write_part, visit,
}
use dime.Server.Sound.{Sound, Sound-Stable}
use dime.Server.Sound.Gone.{hang_up-Sound, Absent, Absent-Stable, add_fd-Sound, drop_new-Sound}
use dime.Server.Sound.Requests.{Present, serve-Present}

-- `accept` returns no descriptor that is open.
abbrev pub Fresh : Io → Type 0
Fresh io = (open_fds : List ℕ) (fd : ℕ) → io.accepted open_fds ≡ some fd → elem fd open_fds ≡ false

pub Absent-Sound :
    (fd : ℕ) {A : Type 0} {P : World → Type 0} {Q : World → Type 0} {m : M A}
    → Ends P Q (Absent fd) m
    → Ends P Q Sound m
Absent-Sound fd h = change-Ends (λ w p. p) (λ w q. q) (λ w e. e.0) h

watch_new-Ends : {P E : World → Type 0} (fd : ℕ) → Ends P P E (watch_new fd)
unfolding watch_new
watch_new-Ends fd = if-Ends (ltb fd fd_setsize) (pure-Ends _) abort-Ends

module _ (fd : ℕ) where
  enter-Sound : (verbose : Bool) → Ends (Absent fd) Sound Sound (enter verbose fd)
  unfolding enter
  enter-Sound verbose =
      bind-Ends (Absent-Sound fd (alloc-Holds (Stable-Calm (Absent-Stable fd)))) λ entered.
        then-Ends
          (if-Ends entered (add_fd-Sound fd)
            (then-Ends (drop_new-Sound fd) (if-Ends verbose abort-Ends (pure-Ends tt))))
          (watch_new-Ends fd)

  welcome-Sound :
      (verbose : Bool) (protocol : Protocol) (upgraded : Bool)
      → Ends (Absent fd) Sound Sound (welcome verbose protocol upgraded fd)
  unfolding welcome
  welcome-Sound verbose protocol upgraded =
      then-Ends
        (Absent-Sound fd (init-Holds (Absent-Stable fd) fd (λ w (h, out). h.members_open fd out)))
        (if-Ends (is_ws protocol && not upgraded) (then-Ends (drop_new-Sound fd) (pure-Ends _))
          (enter-Sound verbose))

  attend-Sound : (io : Io) → Ends (Present fd) Sound Sound (attend io fd)
  unfolding attend
  attend-Sound io =
      if-Ends io.received
        (then-Ends (change-Ends (λ w p. p) (λ w p. p.0) (λ w e. e) (serve-Present fd io.requests))
          (if-Ends io.malformed (stop-Holds (Stable-Calm Sound-Stable)) (pure-Ends _)))
        (change-Ends {P = Sound} (λ w p. p.0) (λ w h. h) (λ w e. e)
          (bind-Ends (hang_up-Sound fd) (λ changes. pure-Ends _)))

module _ (verbose : Bool) (listeners : List ServerFd) where
  -- A list of open descriptors that ends with the clients'.
  pub elem_behind : (fd : ℕ) (xs ys : List ℕ) → elem fd (xs ++ ys) ≡ false → elem fd ys ≡ false
  elem_behind fd xs ys h = ground (arith, elem-append fd xs ys)

  accept_from-Sound :
      (protocol : Protocol) (upgraded : Bool) (accepted : Option ℕ) (w : World)
      → Sound w
      → ((fd : ℕ) → accepted ≡ some fd → elem fd w.fds ≡ false)
      → End Sound Sound (accept_from verbose protocol upgraded accepted w)
  unfolding accept_from
  accept_from-Sound protocol upgraded none w h fresh = (pure-Ends {E = Sound} _).out w h
  accept_from-Sound protocol upgraded (some fd) w h fresh =
      (welcome-Sound fd verbose protocol upgraded).out w (h, fresh fd refl)

  accepting-Sound :
      (protocol : Protocol) (io : Io)
      → Fresh io
      → Holds Sound (
          get_fds >>= λ fds.
          accept_from verbose protocol io.upgraded
            (io.accepted (map (λ (l : ServerFd). l.fd) listeners ++ fds)))
  unfolding get_fds ◌>>=◌
  accepting-Sound protocol io fresh = record {
    out = λ w h.
        accept_from-Sound protocol io.upgraded _ w h
          (λ fd e. elem_behind fd _ w.fds (fresh _ fd e));
  }

  read_new-Sound :
      (io : Io) (protocol : Option Protocol)
      → Fresh io
      → Holds Sound (read_new verbose listeners io protocol)
  unfolding read_new admit
  read_new-Sound io none fresh = pure-Ends _
  read_new-Sound io (some protocol) fresh =
      then-Ends
        (Leads-Ends
          (or_stop-Keeps (Stable-Calm Sound-Stable) (alloc-Keeps (Stable-Calm Sound-Stable))))
        (accepting-Sound protocol io fresh)

  read_part-Sound : (io : Io) (i : ℕ) → Fresh io → Holds Sound (read_part verbose listeners io i)
  unfolding read_part get_fds ◌>>=◌
  read_part-Sound io i fresh = record {
    out = λ w h. elim (Bool-cases (elem i w.fds)) [
      | inl here ↦ rw here ((attend-Sound i io).out w (h, here))
      | inr new ↦ rw new ((read_new-Sound io (find_listener listeners i) fresh).out w h)
    ];
  }

  write_part-Sound :
      (io : Io) (i : ℕ) (ready : Bool) (visited : Visited)
      → Holds Sound (write_part io i ready visited)
  unfolding write_part
  write_part-Sound io i ready (continued changes) = pure-Ends changes
  write_part-Sound io i ready (went_on found changes) = bind-Ends get_fds-Ends λ fds.
      if-Ends (ready && (found || elem i fds) && not io.written)
        (bind-Ends (hang_up-Sound i) (λ closed. pure-Ends _)) (pure-Ends changes)

  pub visit-Sound :
      (rset wset : Bool) (io : Io) (i : ℕ)
      → Fresh io
      → Holds Sound (visit verbose listeners rset wset io i)
  unfolding visit
  visit-Sound rset wset io i fresh =
      bind-Ends (if-Ends (rset && io.readable) (read_part-Sound io i fresh) (pure-Ends _))
        (λ visited. write_part-Sound io i (wset && io.writable) visited)
