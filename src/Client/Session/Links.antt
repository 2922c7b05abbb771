-- ===== src/Client/Session/Links.antt =====
-- `dime_client_handshake`, `_devices` and `_init`, and what depends on the links and the tables
-- alone.
use dime.Base.{
  ℕ, Bool, true, false, ◌&&◌, Option, none, some, List, [], ◌∷◌, ◌==◌, length, refl, arith, ◌≡◌,
}
use dime.Deque.{Deque}
use dime.World.{
  Reply, ◌>>◌, push, World, Serialization, no_serialization, dimeb, M, alloc, modify_client,
  json_parsing, handshake_reply, reregister, devices_reply,
}
use dime.World.Links.{
  Stable, Calm, Stable-Calm, alloc-Keeps, push-Keeps, require-Keeps, fail-Leads, stop-Leads,
}
use dime.World.Logic.{Leads, Keeps, bind-Leads, then-Leads, if-Leads, pure-Leads, look-Leads}
use dime.World.After.{
  abort-Ends, pure-Ends, if-Ends, fail-Holds, Holds, then-Ends, bind-Ends, Leads-Ends, alloc-Holds,
  stop-Holds,
}
use dime.Client.Groups.{get_group}
use dime.Client.Messages.{get_fds, others}
use dime.Client.Session.{
  Named, TlsResult, tls_zero, tls_negative, tls_unread, tls_step, serialization_of, same, or_stop,
  set_serialization, reregister_all, change_over, agree, answer, greet, handshake, list_groups,
  get_names, devices, init, set_client,
}

get_names-Leads : {P E : World → Type 0} → Leads P P E get_names
unfolding get_names
get_names-Leads = look-Leads (λ w. w.names)

get_group-Leads : {P E : World → Type 0} (name : ℕ) → Leads P P E (get_group name)
unfolding get_group
get_group-Leads name = look-Leads (λ w. w.groups name)

get_fds-Leads : {P E : World → Type 0} → Leads P P E get_fds
unfolding get_fds
get_fds-Leads = look-Leads (λ w. w.fds)

is_unread : TlsResult → Bool
is_unread tls_unread = true
is_unread _ = false

-- A handshake asks for TLS while the socket holds more bytes.
unfoldable pub asserts : Option (Named × Bool) → TlsResult → Bool
unfolding is_unread
asserts none result = false
asserts (some (named, tls)) result = tls && is_unread result

module _ {P : World → Type 0} (s : Calm P) where
  pub or_stop-Keeps : {m : M Bool} → Keeps P m → Keeps P (or_stop m)
  unfolding or_stop
  or_stop-Keeps h = bind-Leads h (λ b. if-Leads b (pure-Leads tt) (stop-Leads s))

  set_serialization-Keeps : (f : Serialization) → Keeps P (set_serialization f)
  unfolding set_serialization
  set_serialization-Keeps f = record {
    out = λ w. s.move w _ (record {
      links = record {
        groups_of = λ k. refl;
        clnts_of = λ k. refl;
        same_names = refl;
        same_fds = refl;
        stays_granted = λ g. g;
      };
      queue_of = λ k. refl;
      same_messages = refl;
      same_next = refl;
    });
  }

  reregister_all-Keeps : (fds : List ℕ) → Keeps P (reregister_all fds)
  unfolding reregister_all
  reregister_all-Keeps [] = pure-Leads tt
  reregister_all-Keeps (fd ∷ fds) =
      then-Leads (or_stop-Keeps (push-Keeps s fd reregister)) (reregister_all-Keeps fds)

  change_over-Keeps : (fd : ℕ) → Keeps P (change_over fd)
  unfolding change_over
  change_over-Keeps fd = then-Leads (or_stop-Keeps (alloc-Keeps s)) (
      then-Leads (or_stop-Keeps (alloc-Keeps s)) (
        bind-Leads get_fds-Leads
          λ fds. then-Leads (reregister_all-Keeps (others fd fds)) (set_serialization-Keeps dimeb)))

  agree-Keeps : (fd : ℕ) (f : Serialization) → Keeps P (agree fd f)
  unfolding agree
  agree-Keeps fd f = record {
    out = λ w.
        (if-Leads (same w.serialization no_serialization) (set_serialization-Keeps f)
            (if-Leads _ (change_over-Keeps fd) (pure-Leads tt))).out
          w;
  }

  reply-Keeps : (fd : ℕ) (r : Reply) → Keeps P (or_stop alloc >> or_stop (push fd r))
  reply-Keeps fd r = then-Leads (or_stop-Keeps (alloc-Keeps s)) (or_stop-Keeps (push-Keeps s fd r))

  tls_step-Keeps : (result : TlsResult) → is_unread result ≡ false → Keeps P (tls_step result)
  unfolding tls_step is_unread
  tls_step-Keeps tls_zero h = pure-Leads tt
  tls_step-Keeps tls_negative h = stop-Leads s
  tls_step-Keeps tls_unread h = cc

  tls_step-Holds : (result : TlsResult) → Holds P (tls_step result)
  unfolding tls_step
  tls_step-Holds tls_zero = pure-Ends tt
  tls_step-Holds tls_negative = stop-Holds s
  tls_step-Holds tls_unread = abort-Ends

  answer-Keeps :
      (fd : ℕ) (wants_tls : Bool) (result : TlsResult)
      → wants_tls && is_unread result ≡ false
      → Keeps P (answer fd wants_tls result)
  unfolding answer
  answer-Keeps fd true result h = record {
    out = λ w.
        (then-Leads (reply-Keeps fd (handshake_reply w.serialization w.has_tls))
            (if-Leads w.has_tls (tls_step-Keeps result h) (pure-Leads tt))).out
          w;
  }
  answer-Keeps fd false result h = record {
    out = λ w.
        (then-Leads (reply-Keeps fd (handshake_reply w.serialization false)) (pure-Leads tt)).out w;
  }

  answer-Holds :
      (fd : ℕ) (wants_tls : Bool) (result : TlsResult) → Holds P (answer fd wants_tls result)
  unfolding answer
  answer-Holds fd wants_tls result = record {
    out = λ w.
        (then-Ends
            (Leads-Ends (reply-Keeps fd (handshake_reply w.serialization (wants_tls && w.has_tls))))
            (if-Ends (wants_tls && w.has_tls) (tls_step-Holds result) (pure-Ends tt))).out
          w;
  }

  greet-Keeps :
      (fd : ℕ) (f : Option Serialization) (tls : Bool) (result : TlsResult)
      → tls && is_unread result ≡ false
      → Keeps P (greet fd f tls result)
  unfolding greet
  greet-Keeps fd none tls result h = stop-Leads s
  greet-Keeps fd (some f) tls result h =
      then-Leads (agree-Keeps fd f) (answer-Keeps fd tls result h)

  greet-Holds :
      (fd : ℕ) (f : Option Serialization) (tls : Bool) (result : TlsResult)
      → Holds P (greet fd f tls result)
  unfolding greet
  greet-Holds fd none tls result = stop-Holds s
  greet-Holds fd (some f) tls result =
      then-Ends (Leads-Ends (agree-Keeps fd f)) (answer-Holds fd tls result)

  -- A handshake that does not come to the assertion of `dime_socket_init_tls`.
  pub handshake-Keeps :
      (fd : ℕ) (args : Option (Named × Bool)) (result : TlsResult)
      → asserts args result ≡ false
      → Keeps P (handshake fd args result)
  unfolding handshake asserts
  handshake-Keeps fd none result h = fail-Leads s fd json_parsing
  handshake-Keeps fd (some (named, tls)) result h =
      greet-Keeps fd (serialization_of named) tls result h

  pub handshake-Holds :
      (fd : ℕ) (args : Option (Named × Bool)) (result : TlsResult)
      → Holds P (handshake fd args result)
  unfolding handshake
  handshake-Holds fd none result = fail-Holds s fd json_parsing
  handshake-Holds fd (some (named, tls)) result = greet-Holds fd (serialization_of named) tls result

  list_groups-Keeps : (fd : ℕ) (names : List ℕ) → Keeps P (list_groups fd names)
  unfolding list_groups
  list_groups-Keeps fd [] = pure-Leads []
  list_groups-Keeps fd (name ∷ names) = bind-Leads (get_group-Leads name) λ g.
      if-Leads (length g.clnts == 0) (list_groups-Keeps fd names) (
        bind-Leads
          (then-Leads
            (then-Leads (require-Keeps s fd (alloc-Keeps s)) (require-Keeps s fd (alloc-Keeps s)))
            (list_groups-Keeps fd names))
          (λ rest. pure-Leads (name ∷ rest)))

  pub devices-Keeps : (fd : ℕ) → Keeps P (devices fd)
  unfolding devices
  devices-Keeps fd = then-Leads (require-Keeps s fd (alloc-Keeps s)) (
      bind-Leads get_names-Leads λ names. bind-Leads (list_groups-Keeps fd names) λ listed.
        then-Leads (require-Keeps s fd (alloc-Keeps s))
          (require-Keeps s fd (push-Keeps s fd (devices_reply listed))))

module _ {P : World → Type 0} (s : Stable P) where
  set_client-Holds :
      (fd : ℕ) (q : Option (Deque ℕ))
      → ((w : World) → P w → (w.clients fd).groups ≡ [])
      → Holds P (set_client fd q)
  unfolding set_client modify_client
  set_client-Holds fd none h = stop-Holds (Stable-Calm s)
  set_client-Holds fd (some q) h = record {
    out = λ w p.
        s.move w _
          (record {
            groups_of = λ k. ground (arith, h w p);
            clnts_of = λ k. refl;
            same_names = refl;
            same_fds = refl;
            stays_granted = λ g. g;
          })
          p;
  }

  -- A new client is in no group, as what stood there before.
  pub init-Holds : (fd : ℕ) → ((w : World) → P w → (w.clients fd).groups ≡ []) → Holds P (init fd)
  unfolding init
  init-Holds fd h = then-Ends grant (
      then-Ends grant (
        then-Ends grant
          (bind-Ends (alloc-Holds (Stable-Calm s)) (λ granted. set_client-Holds fd _ h))))
    where
      grant : Holds P (or_stop alloc)
      grant = Leads-Ends (or_stop-Keeps (Stable-Calm s) (alloc-Keeps (Stable-Calm s)))
