-- ===== src/Server/Setup/Added.antt =====
-- How `dime_server_add` ends.
use dime.Base.{
  ℕ, ◌*◌, ◌<◌, ◌^◌, ◌≡◌, refl, ap, ◌∙◌, Option-cases, Bool, true, false, Option, none, some, [],
  ◌∷◌, ◌++◌, arith, length, length-append, inl, inr,
}
use dime.Server.{Protocol, ServerFd}
use dime.Client.Groups.Counts.{count, count-append}
use dime.Server.Setup.{
  Listening, AddCalls, Target, unix_at, tcp_at, ws_at, unknown_protocol, grow_fds, open_target,
  protocol_of, register, add_grown, add,
}
use dime.Server.Setup.Registered.{fds_of, Registered, fds_of-append, grow_fds-Registered}
use dime.Server.Setup.Opened.{Opened, none-Opened, open_target-Opened}

-- How `dime_server_add` ends.
pub record Added (target : Target) (srv : Listening) (out : Bool × Listening) : Type 0 where
  pub registered : Registered out.1
  pub on_success :
      out.0 ≡ true
      → (l : ServerFd) × (protocol_of target ≡ some l.protocol) × (out.1.fds ≡ srv.fds ++ (l ∷ []))
  pub on_failure : out.0 ≡ false → (out.1.fds ≡ srv.fds) × (out.1.pathnames ≡ srv.pathnames)

-- An unknown protocol opens nothing.
known_protocol :
    (calls : AddCalls) (target : Target) (srv : Listening)
    → protocol_of target ≡ none
    → open_target calls target srv ≡ (none, srv)
unfolding open_target protocol_of
known_protocol calls (unix_at pathname) srv e = cc e
known_protocol calls (tcp_at port) srv e = cc e
known_protocol calls (ws_at port) srv e = cc e
known_protocol calls (unknown_protocol protocol) srv e = refl

failed-Added :
    (target : Target) (srv roomy out : Listening)
    → Registered roomy
    → roomy.fds ≡ srv.fds
    → roomy.pathnames ≡ srv.pathnames
    → Opened roomy (none, out)
    → Added target srv (false, out)
failed-Added target srv roomy out r fds pathnames o = record {
  registered = record {
    fds_fit = omega (arith, r.fds_fit, o.same_cap, ap length o.same_fds);
    fds_least = omega (arith, r.fds_least, o.same_cap);
    pathnames_fit = o.fit;
    pathnames_least = o.least;
    accounted = λ k. omega (arith, o.accounted k, ap (λ l. count k (fds_of l)) o.same_fds);
  };
  on_success = λ h. cc h;
  on_failure = λ _. (o.same_fds ∙ fds, o.kept refl ∙ pathnames);
}

register-Added :
    (target : Target) (p : Option Protocol) (srv roomy : Listening) (out : Option ℕ × Listening)
    → protocol_of target ≡ p
    → (p ≡ none → out ≡ (none, roomy))
    → Registered roomy
    → roomy.fds ≡ srv.fds
    → roomy.pathnames ≡ srv.pathnames
    → length roomy.fds < roomy.fds_cap
    → Opened roomy out
    → Added target srv (register p out)
unfolding register
register-Added target none srv roomy (none, out) e nothing r fds pathnames room o =
    failed-Added target srv roomy out r fds pathnames o
register-Added target (some protocol) srv roomy (none, out) e nothing r fds pathnames room o =
    failed-Added target srv roomy out r fds pathnames o
register-Added target none srv roomy (some fd, out) e nothing r fds pathnames room o =
    cc (nothing refl)
register-Added target (some protocol) srv roomy (some fd, out) e nothing r fds pathnames room o =
    record {
      registered = record {
        fds_fit = omega (
          arith,
          room,
          o.same_cap,
          ap length o.same_fds,
          length-append out.fds (record { fd = fd; protocol = protocol } ∷ []),
        );
        fds_least = omega (arith, r.fds_least, o.same_cap);
        pathnames_fit = o.fit;
        pathnames_least = o.least;
        accounted = λ k. omega (
          arith,
          o.accounted k,
          ap (λ l. count k (fds_of l)) o.same_fds,
          ap (count k) (fds_of-append out.fds (record { fd = fd; protocol = protocol } ∷ [])),
          count-append k (fds_of out.fds) (fd ∷ []),
        );
      };
      on_success = λ _. (
        record { fd = fd; protocol = protocol },
        e,
        ap (λ l. l ++ (record { fd = fd; protocol = protocol } ∷ [])) (o.same_fds ∙ fds),
      );
      on_failure = λ h. cc h;
    }

-- `dime_server_add`, whatever the system answers, keeps the record of listening sockets in order: there
-- is room for all entries, and each socket that it opened either is an entry or was closed. Where it
-- returns 0 it has put one entry, with the protocol asked for, behind the others; where it returns -1
-- it has changed neither the entries nor the pathnames. The capacities' triples fit in 64 bits.
pub add-Added :
    (calls : AddCalls) (target : Target) (srv : Listening)
    → Registered srv
    → 3 * srv.fds_cap < 2 ^ 64
    → 3 * srv.pathnames_cap < 2 ^ 64
    → Added target srv (add calls target srv)
unfolding add add_grown
add-Added calls target srv r small_fds small_pathnames = elim (Option-cases (grow_fds calls srv)) [
  | inl short ↦
      rw (short, add_grown) (failed-Added target srv srv srv r refl refl (none-Opened calls srv r))
  | inr (roomy, done) ↦
      let (r', fds, pathnames, cap, room) = grow_fds-Registered calls srv r roomy small_fds done in
      rw (done, add_grown)
        (register-Added target (protocol_of target) srv roomy (open_target calls target roomy) refl
          (known_protocol calls target roomy) r' fds pathnames room
          (open_target-Opened calls target roomy r' (omega (arith, cap))))
]
