-- ===== src/Server/Loop.antt =====
-- The loop of `dime_server_loop`: its sets of descriptors, the rounds of `select`, and what starts it.
-- `rfds[0]` and `wfds[0]` are the sets here; `rfds[1]` and `wfds[1]` are what `select` leaves of copies
-- of them. A `maxfd` of -1, with no listening socket, is 0, which bounds the same loops.
pub mod Sound
pub mod Faultless
use dime.Base.{
  ℕ, zero, suc, ◌+◌, Bool, true, false, not, List, [], ◌∷◌, ◌&&◌, ltb, leb, if◌then◌else◌,
}
use dime.World.{World, M, abort, ok, pure, ◌>>=◌, ◌>>◌, update, elem, stop}
use dime.Server.{fd_setsize, ServerFd, Io, Change, watch, unwatch, visit}

pub record Sets : Type 0 where
  pub rfds : ℕ → Bool
  pub wfds : ℕ → Bool
  pub maxfd : ℕ

unfoldable pub raised : ℕ → ℕ → ℕ
raised fd maxfd = if ltb maxfd (fd + 1) then fd + 1 else maxfd

unfoldable pub apply_change : Change → Sets → Sets
apply_change (watch fd) s = record s { rfds = update s.rfds fd true; maxfd = raised fd s.maxfd }
apply_change (unwatch fd) s = record s {
  rfds = update s.rfds fd false;
  wfds = update s.wfds fd false;
}

unfoldable pub apply_changes : List Change → Sets → Sets
apply_changes [] s = s
apply_changes (c ∷ cs) s = apply_changes cs (apply_change c s)

-- A round: whether `select` succeeds, what the system does at each descriptor, and which clients have
-- bytes to send at its end.
pub record Round : Type 0 where
  pub selected : Bool
  pub io : ℕ → Io
  pub unsent : ℕ → Bool

-- The loop over the descriptors below `maxfd`, which grows when a client is accepted. `FD_ISSET` of a
-- descriptor that is not below `FD_SETSIZE` reads outside the set, so from any descriptor on `n` =
-- `FD_SETSIZE` visits are as many as the loop can make.
pub visits : ℕ → Bool → List ServerFd → Sets → (ℕ → Io) → ℕ → Sets → M Sets
visits zero verbose listeners copies io i s = if ltb i s.maxfd then abort else pure s
visits (suc n) verbose listeners copies io i s =
    if ltb i s.maxfd
    then (visit verbose listeners (copies.rfds i) (copies.wfds i) (io i) i >>= λ changes.
        visits n verbose listeners copies io (i + 1) (apply_changes changes s))
    else pure s

-- The loop that puts into the set for writing the clients that have bytes to send. Each round of it is
-- about one descriptor.
pub refreshed : (ℕ → Bool) → List ℕ → Sets → ℕ → Bool
refreshed unsent fds s i =
    if (leb 3 i && ltb i s.maxfd) && (s.rfds i && elem i fds) then unsent i else s.wfds i

refresh : (ℕ → Bool) → Sets → M Sets
refresh unsent s w = (ok (record s { wfds = refreshed unsent w.fds s }), w)

-- The body of `while (1)`.
pub round : Bool → List ServerFd → Round → Sets → M Sets
round verbose listeners r s =
    if r.selected
    then (visits fd_setsize verbose listeners s r.io 3 s >>= λ s'. refresh r.unsent s')
    else stop

-- Some rounds of `while (1)`, which ends by -1 alone.
pub run : Bool → List ServerFd → List Round → Sets → M Sets
run verbose listeners [] s = pure s
run verbose listeners (r ∷ rs) s = round verbose listeners r s >>= λ s'. run verbose listeners rs s'

-- The listening sockets are put into the set for reading, while they have a place in it and `listen`
-- succeeds on them.
listen_all : (ℕ → Bool) → List ServerFd → Sets → M Sets
listen_all listened [] s = pure s
listen_all listened (l ∷ ls) s =
    if not (ltb l.fd fd_setsize)
    then abort
    else if listened l.fd
    then listen_all listened ls (apply_change (watch l.fd) s)
    else stop

no_sets : Sets
no_sets = record { rfds = λ i. false; wfds = λ i. false; maxfd = 0 }

-- `dime_server_loop`, for as many rounds as `rs` has.
pub server_loop : Bool → List ServerFd → (ℕ → Bool) → List Round → M Sets
server_loop verbose listeners listened rs =
    listen_all listened listeners no_sets >>= λ s. run verbose listeners rs s
