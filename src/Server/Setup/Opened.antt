-- ===== src/Server/Setup/Opened.antt =====
-- The sockets that `dime_server_add` opens and closes.
use dime.Base.{
  ℕ, ◌+◌, ◌*◌, ◌≤◌, ◌<◌, ◌^◌, ◌≡◌, refl, ap, ◌∙◌, Option-cases, Option, none, some, List, [], ◌∷◌,
  arith, length, length-append, if◌then◌else◌, Bool-cases, ◌==◌, inl, inr,
}
use dime.Client.Groups.Counts.{count}
use dime.Server.Setup.{
  sun_path, Listening, AddCalls, Target, unix_at, tcp_at, ws_at, unknown_protocol, grown,
  grow_pathnames, note_opened, note_closed, add_pathname, bind_socket, keep_pathname, open_unix,
  unix_grown, add_unix, open_ipv4, open_ipv6, open_target,
}
use dime.Server.Setup.Registered.{fds_of, Registered, closed-Registered, grow_pathnames-Registered}

-- A socket that is open and not yet among the entries.
abbrev pub awaiting : ℕ → Option ℕ → ℕ
awaiting fd none = 0
awaiting fd (some k) = if k == fd then 1 else 0

-- What opening a socket leaves: the entries, and an account of what is open.
pub record Opened (srv : Listening) (out : Option ℕ × Listening) : Type 0 where
  pub same_fds : out.1.fds ≡ srv.fds
  pub same_cap : out.1.fds_cap ≡ srv.fds_cap
  pub fit : length out.1.pathnames ≤ out.1.pathnames_cap
  pub least : 8 ≤ out.1.pathnames_cap
  pub kept : out.0 ≡ none → out.1.pathnames ≡ srv.pathnames
  pub accounted :
      (fd : ℕ)
      → count fd out.1.opened
        ≡ count fd out.1.closed + (awaiting fd out.0 + count fd (fds_of srv.fds))

module _ (calls : AddCalls) (srv : Listening) (r : Registered srv) where
  pub none-Opened : Opened srv (none, srv)
  none-Opened = record {
    same_fds = refl;
    same_cap = refl;
    fit = r.pathnames_fit;
    least = r.pathnames_least;
    kept = λ _. refl;
    accounted = λ fd. omega (arith, r.accounted fd);
  }

  bind_socket-Opened : (fd : ℕ) → Opened srv (bind_socket calls fd (note_opened fd srv))
  unfolding bind_socket note_opened note_closed
  bind_socket-Opened fd = elim (Bool-cases calls.bound) [
    | inl bound ↦ rw bound (record {
      same_fds = refl;
      same_cap = refl;
      fit = r.pathnames_fit;
      least = r.pathnames_least;
      kept = λ _. refl;
      accounted = λ k. ground (arith, r.accounted k);
    })
    | inr unbound ↦ rw unbound (record {
      same_fds = refl;
      same_cap = refl;
      fit = r.pathnames_fit;
      least = r.pathnames_least;
      kept = λ _. refl;
      accounted = λ k. ground (arith, r.accounted k);
    })
  ]

rebased :
    (srv grown : Listening) (out : Option ℕ × Listening)
    → grown.fds ≡ srv.fds
    → grown.fds_cap ≡ srv.fds_cap
    → grown.pathnames ≡ srv.pathnames
    → Opened grown out
    → Opened srv out
rebased srv grown out fds cap pathnames o = record {
  same_fds = o.same_fds ∙ fds;
  same_cap = o.same_cap ∙ cap;
  fit = o.fit;
  least = o.least;
  kept = λ e. o.kept e ∙ pathnames;
  accounted = λ fd. omega (arith, o.accounted fd, ap (λ l. count fd (fds_of l)) fds);
}

keep_pathname-Opened :
    (srv : Listening) (pathname : List ℕ) (out : Option ℕ × Listening)
    → length out.1.pathnames < out.1.pathnames_cap
    → Opened srv out
    → Opened srv (keep_pathname pathname out)
unfolding keep_pathname add_pathname
keep_pathname-Opened srv pathname (none, out) room o = o
keep_pathname-Opened srv pathname (some fd, out) room o = record {
  same_fds = o.same_fds;
  same_cap = o.same_cap;
  fit = omega (arith, room, length-append out.pathnames (pathname ∷ []));
  least = o.least;
  kept = λ e. cc e;
  accounted = o.accounted;
}

bind_socket-pathnames :
    (calls : AddCalls) (fd : ℕ) (srv : Listening)
    → let out = bind_socket calls fd (note_opened fd srv) in
      (out.1.pathnames ≡ srv.pathnames) × (out.1.pathnames_cap ≡ srv.pathnames_cap)
unfolding bind_socket note_opened note_closed
bind_socket-pathnames calls fd srv = ground arith

module _ (calls : AddCalls) where
  open_unix-Opened :
      (pathname : List ℕ) (socket : Option ℕ) (srv : Listening)
      → Registered srv
      → length srv.pathnames < srv.pathnames_cap
      → Opened srv (open_unix calls pathname socket srv)
  unfolding open_unix
  open_unix-Opened pathname none srv r room = none-Opened calls srv r
  open_unix-Opened pathname (some fd) srv r room =
      let same = bind_socket-pathnames calls fd srv in
      keep_pathname-Opened srv pathname _ (omega (arith, ap length same.0, same.1, room))
        (bind_socket-Opened calls srv r fd)

  add_unix-Opened :
      (pathname : List ℕ) (srv : Listening)
      → Registered srv
      → 3 * srv.pathnames_cap < 2 ^ 64
      → Opened srv (add_unix calls pathname srv)
  unfolding add_unix unix_grown grow_pathnames
  add_unix-Opened pathname srv r small = elim (Bool-cases calls.copy_memory) [
    | inr short ↦ rw short (none-Opened calls srv r)
    | inl copied ↦ elim (Option-cases (grow_pathnames calls srv)) [
      | inl short ↦ rw (copied, short, unix_grown) (none-Opened calls srv r)
      | inr (roomy, done) ↦
          let (r', fds, cap, pathnames, room) =
            grow_pathnames-Registered calls srv r roomy small done in
          rw (copied, done, unix_grown)
            (rebased srv roomy _ fds cap pathnames
              (open_unix-Opened (sun_path pathname) calls.socket roomy r' room))
    ]
  ]

  open_ipv4-Opened :
      (socket : Option ℕ) (srv : Listening)
      → Registered srv
      → Opened srv (open_ipv4 calls socket srv)
  unfolding open_ipv4
  open_ipv4-Opened none srv r = none-Opened calls srv r
  open_ipv4-Opened (some fd) srv r = bind_socket-Opened calls srv r fd

  open_ipv6-Opened :
      (socket : Option ℕ) (srv : Listening)
      → Registered srv
      → Opened srv (open_ipv6 calls socket srv)
  unfolding open_ipv6 note_closed note_opened bind_socket open_ipv4
  open_ipv6-Opened none srv r = none-Opened calls srv r
  open_ipv6-Opened (some fd) srv r = elim (Bool-cases calls.dual_stack) [
    | inl dual ↦ rw dual (bind_socket-Opened calls srv r fd)
    | inr one ↦ rw one (
        rebased srv (note_closed fd (note_opened fd srv)) _ refl refl refl (
          open_ipv4-Opened calls.ipv4_socket (note_closed fd (note_opened fd srv))
            (closed-Registered calls srv r fd)))
  ]

  pub open_target-Opened :
      (target : Target) (srv : Listening)
      → Registered srv
      → 3 * srv.pathnames_cap < 2 ^ 64
      → Opened srv (open_target calls target srv)
  unfolding open_target
  open_target-Opened (unix_at pathname) srv r small = add_unix-Opened pathname srv r small
  open_target-Opened (tcp_at port) srv r small = open_ipv6-Opened calls.socket srv r
  open_target-Opened (ws_at port) srv r small = open_ipv6-Opened calls.socket srv r
  open_target-Opened (unknown_protocol protocol) srv r small = none-Opened calls srv r
