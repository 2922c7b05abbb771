-- ===== src/Server/Trusted/Visits.antt =====
-- The body of the loop over descriptors where memory is granted.
use dime.Base.{
  ℕ, suc, ◌+◌, ◌<◌, ◌^◌, ◌≡◌, ◌||◌, refl, Bool, true, false, not, ◌&&◌, Option, none, some, List,
  [], ◌++◌, arith, length, length-append, map, Bool-cases, inl, inr,
}
use dime.World.{World, ◌>>=◌, elem, stop}
use dime.World.Logic.{Post, Leads, change-Post, bind-Leads, pure-Leads}
use dime.World.Links.{Calm, Stable-Calm, alloc-Keeps}
use dime.World.Gives.{
  Outcomes, Gives, bind-Gives, then-Gives, if-Gives, pure-Gives, Leads-Gives, Gives-Leads,
}
use dime.Client.Messages.{get_fds}
use dime.Client.Messages.Safe.{Bounded-Calm}
use dime.Client.Session.Links.{or_stop-Keeps}
use dime.Request.{Request, serve}
use dime.Server.{
  Protocol, ServerFd, fd_setsize, Io, Change, Visited, continued, went_on, find_listener,
  accept_from, admit, attend, read_new, read_part, write_part, visit,
}
use dime.Server.Sound.{Sound-Stable}
use dime.Server.Sound.Visits.{Fresh, elem_behind}
use dime.Server.Trusted.{serve-Trusted, Trusted, WellRead}
use dime.Request.Serve.{EachIs}
use dime.Server.Trusted.Clients.{Kept, hang_up-Kept}
use dime.Server.Trusted.Welcome.{ReadDone, later-Kept, welcome-Gives}

-- `accept` returns a descriptor that has a place in the sets of the loop, and only while fewer than
-- their size are open; and no request that has arrived asks for TLS while the socket holds more bytes.
pub record Regular (io : Io) : Type 0 where
  pub few_open :
      (open_fds : List ℕ) (fd : ℕ)
      → io.accepted open_fds ≡ some fd
      → (fd < fd_setsize) × (length open_fds < fd_setsize)
  pub well_read : EachIs WellRead io.requests

module _ (verbose : Bool) (listeners : List ServerFd) (i : ℕ) where
  accept_from-Outcomes :
      (n : ℕ) (protocol : Protocol) (upgraded : Bool) (accepted : Option ℕ) (w : World)
      → Kept n w
      → ((fd : ℕ)
          → accepted ≡ some fd
          → (elem fd w.fds ≡ false) × (suc (length w.fds) < 2 ^ 32) × (fd < fd_setsize))
      → Outcomes (ReadDone i n) (Kept n) (accept_from verbose protocol upgraded accepted w)
  unfolding accept_from
  accept_from-Outcomes n protocol upgraded none w k fresh =
      (pure-Gives {E = Kept n} {Q = ReadDone i n} (continued []) (λ v k. k)).out w k
  accept_from-Outcomes n protocol upgraded (some fd) w (b, h) fresh =
      let (out, few, below) = fresh fd refl in
      (welcome-Gives fd n i verbose protocol upgraded below).out w (b, ((h, out), few))

  accepting-Gives :
      (n : ℕ) (protocol : Protocol) (io : Io)
      → Fresh io
      → Regular io
      → Gives (Kept n) (ReadDone i n) (Kept n) (
          get_fds >>= λ fds.
          accept_from verbose protocol io.upgraded
            (io.accepted (map (λ (l : ServerFd). l.fd) listeners ++ fds)))
  unfolding get_fds ◌>>=◌
  accepting-Gives n protocol io fresh few = record {
    out = λ w k. accept_from-Outcomes n protocol io.upgraded _ w k (λ fd e. (
      elem_behind verbose listeners fd _ w.fds (fresh _ fd e),
      omega (
        arith,
        (few.few_open _ fd e).1,
        length-append (map (λ (l : ServerFd). l.fd) listeners) w.fds,
      ),
      (few.few_open _ fd e).0,
    ));
  }

  Kept-Calm : (n : ℕ) → Calm (Kept n)
  Kept-Calm n = record {
    move =
        λ w w' q (b, h). ((Bounded-Calm n).move w w' q b, (Stable-Calm Sound-Stable).move w w' q h);
  }

  read_new-Gives :
      (n : ℕ) (io : Io) (protocol : Option Protocol)
      → Fresh io
      → Regular io
      → Gives (Kept n) (ReadDone i n) (Kept n) (read_new verbose listeners io protocol)
  unfolding read_new admit
  read_new-Gives n io none fresh few = pure-Gives (continued []) (λ v k. k)
  read_new-Gives n io (some protocol) fresh few =
      then-Gives (or_stop-Keeps (Kept-Calm n) (alloc-Keeps (Kept-Calm n)))
        (accepting-Gives n protocol io fresh few)

  -- The requests, all of which are served.
  serve-Kept :
      (n : ℕ) (requests : List Request)
      → n + length requests < 2 ^ 60
      → EachIs WellRead requests
      → Leads
          (λ w. Kept n w × (elem i w.fds ≡ true))
          (λ w. Kept (n + length requests) w × (elem i w.fds ≡ true))
          (Kept (n + length requests))
          (serve i requests)
  serve-Kept n requests early whole = record {
    out = λ w ((b, h), connected).
        change-Post (Trusted i (n + length requests)) _ (λ v. ⊥) _ _ (λ v x. ((x.0, x.1.0), x.1.1))
          (λ v x. absurd x) (serve-Trusted i n requests w early whole (b, (h, connected)));
  }

  attend-Gives :
      (n : ℕ) (io : Io)
      → Regular io
      → n + length io.requests < 2 ^ 60
      → let m = n + length io.requests in
        Gives (λ w. Kept n w × (elem i w.fds ≡ true)) (ReadDone i m) (Kept m) (attend io i)
  unfolding attend stop
  attend-Gives n io regular early =
      let m = n + length io.requests in
      if-Gives io.received
        (then-Gives (serve-Kept n io.requests early regular.well_read) (
          if-Gives io.malformed (record { out = λ w (k, connected). k })
            (pure-Gives (went_on true []) (λ v x. x))))
        (bind-Gives {Q = λ changes. Kept m}
          (record {
            out = λ w (k, connected).
                (Leads-Gives (hang_up-Kept i m)).out w
                  (later-Kept n (length io.requests) w k, connected);
          })
          (λ changes. pure-Gives (continued changes) (λ v k. k)))

  read_part-Gives :
      (n : ℕ) (io : Io)
      → Fresh io
      → Regular io
      → n + length io.requests < 2 ^ 60
      → let m = n + length io.requests in
        Gives (Kept n) (ReadDone i m) (Kept m) (read_part verbose listeners io i)
  unfolding read_part get_fds ◌>>=◌
  read_part-Gives n io fresh few early =
      let m = n + length io.requests in
      record {
        out = λ w k. elim (Bool-cases (elem i w.fds)) [
          | inl here ↦ rw here ((attend-Gives n io few early).out w (k, here))
          | inr new ↦ rw new (
              (read_new-Gives m io (find_listener listeners i) fresh few).out w
                (later-Kept n (length io.requests) w k))
        ];
      }

  write_found-Kept :
      (n : ℕ) (io : Io) (ready found : Bool) (changes : List Change) (w : World)
      → Kept n w
      → (found || elem i w.fds ≡ true → elem i w.fds ≡ true)
      → Post (Kept n) (Kept n) (write_part io i ready (went_on found changes) w)
  unfolding write_part get_fds ◌>>=◌
  write_found-Kept n io ready found changes w k connected =
      elim (Bool-cases (ready && (found || elem i w.fds) && not io.written)) [
        | inl closes ↦ rw closes (
            (bind-Leads (hang_up-Kept i n) (λ closed. pure-Leads (changes ++ closed))).out w
              (k, connected (ground arith)))
        | inr stays ↦ rw stays ((pure-Leads {P = Kept n} {E = Kept n} changes).out w k)
      ]

  write_part-Leads :
      (n : ℕ) (io : Io) (ready : Bool) (visited : Visited)
      → Leads (ReadDone i n visited) (Kept n) (Kept n) (write_part io i ready visited)
  unfolding write_part
  write_part-Leads n io ready (continued changes) = pure-Leads changes
  write_part-Leads n io ready (went_on true changes) = record {
    out = λ w (k, here). write_found-Kept n io ready true changes w k (λ _. here);
  }
  write_part-Leads n io ready (went_on false changes) = record {
    out = λ w k. write_found-Kept n io ready false changes w k (λ found. found);
  }

  pub visit-Kept :
      (n : ℕ) (rset wset : Bool) (io : Io)
      → Fresh io
      → Regular io
      → n + length io.requests < 2 ^ 60
      → let m = n + length io.requests in
        Leads (Kept n) (Kept m) (Kept m) (visit verbose listeners rset wset io i)
  unfolding visit
  visit-Kept n rset wset io fresh few early =
      let m = n + length io.requests in
      Gives-Leads (
        bind-Gives
          (if-Gives (rset && io.readable) (read_part-Gives n io fresh few early)
            (pure-Gives (went_on false []) (later-Kept n (length io.requests))))
          (λ visited. Leads-Gives (write_part-Leads m io (wset && io.writable) visited)))
