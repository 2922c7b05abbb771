-- ===== src/Client/Session/Handshake.antt =====
-- What a handshake does, where memory is granted.
use dime.Base.{
  ℕ, ◌≡◌, refl, ap, ◌∙◌, Bool, true, false, not, ◌&&◌, some, List, [], ◌∷◌, arith, if◌then◌else◌,
  ℕ_discrete,
}
use dime.World.{
  World, Client, Serialization, no_serialization, matlab, pickle, dimeb, json, Reply, Outcome, ok,
  failed, aborted, pure, stop, abort, ◌>>=◌, ◌>>◌, update, elem, alloc, push, handshake_reply,
  reregister, add_sent,
}
use dime.World.Granted.{sent_to, alloc_granted, push_granted}
use dime.Client.Messages.{others, get_fds}
use dime.Client.Messages.Deliver.{Distinct, dcons}
use dime.Client.Session.{
  Named, TlsResult, tls_zero, tls_negative, tls_unread, tls_step, serialization_of, same, or_stop,
  set_serialization, reregister_all, change_over, agree, answer, greet, handshake,
}

-- The server's format after a client of format `s` has come.
pub agreed : Serialization → Serialization → Serialization
agreed no_serialization s = s
agreed matlab matlab = matlab
agreed matlab _ = dimeb
agreed pickle pickle = pickle
agreed pickle _ = dimeb
agreed dimeb s = dimeb
agreed json s = json

-- Whether the clients that are there must then change over.
pub changes : Serialization → Serialization → Bool
changes no_serialization s = false
changes matlab matlab = false
changes matlab _ = true
changes pickle pickle = false
changes pickle _ = true
changes dimeb s = false
changes json s = false

-- How a handshake ends, with TLS or without.
abbrev pub tls_end : Bool → TlsResult → Outcome (Unit {0})
tls_end false result = ok tt
tls_end true tls_zero = ok tt
tls_end true tls_negative = failed
tls_end true tls_unread = aborted

or_stop-alloc : (w : World) → w.grants ≡ [] → or_stop alloc w ≡ (ok tt, w)
unfolding or_stop ◌>>=◌ pure
or_stop-alloc w g = rw (alloc_granted w g)

or_stop-push :
    (w : World) (fd : ℕ) (r : Reply)
    → w.grants ≡ []
    → or_stop (push fd r) w ≡ (ok tt, sent_to fd r w)
unfolding or_stop ◌>>=◌ pure
or_stop-push w fd r g = rw (push_granted w g fd r)

-- The clients, once those in `fds` have been sent `r`.
abbrev pub told : List ℕ → Reply → (ℕ → Client) → ℕ → Client
told fds r cs k = if elem k fds then add_sent r (cs k) else cs k

told_cons :
    (fd : ℕ) (fds : List ℕ) (r : Reply) (cs : ℕ → Client) (k : ℕ)
    → elem fd fds ≡ false
    → told fds r (update cs fd (add_sent r (cs fd))) k ≡ told (fd ∷ fds) r cs k
told_cons fd fds r cs k new = elim (ℕ_discrete fd k) [ yes e ↦ ground arith | no n ↦ ground arith ]

reregister_all-granted :
    (fds : List ℕ) (w : World)
    → w.grants ≡ []
    → Distinct fds
    → (cs : ℕ → Client) × (reregister_all fds w ≡ (ok tt, record w { clients = cs }))
      × ((k : ℕ) → cs k ≡ told fds reregister w.clients k)
unfolding reregister_all pure ◌>>=◌ ◌>>◌
reregister_all-granted [] w g d = (w.clients, refl, λ k. refl)
reregister_all-granted (fd ∷ fds) w g (dcons new d) =
    let (cs, e, at) = reregister_all-granted fds (sent_to fd reregister w) g d in
    (
      cs,
      rw (or_stop-push w fd reregister g) e,
      λ k. at k ∙ told_cons fd fds reregister w.clients k new,
    )

and_false : (b : Bool) → b && false ≡ false
and_false b = ground arith

-- The clients that `fd` comes upon, once the formats are agreed on.
abbrev pub met : ℕ → World → Bool → ℕ → Client
met fd w changed = if changed then told (others fd w.fds) reregister w.clients else w.clients

module _ (w : World) (g : w.grants ≡ []) (fd : ℕ) (d : Distinct (others fd w.fds)) where
  change_over-granted :
      (cs : ℕ → Client) × (change_over fd w
        ≡ (ok tt, record w { clients = cs; serialization = dimeb }))
      × ((k : ℕ) → cs k ≡ met fd w true k)
  unfolding change_over get_fds set_serialization ◌>>=◌ ◌>>◌
  change_over-granted =
      let (cs, e, at) = reregister_all-granted (others fd w.fds) w g d in
      (cs, rw (or_stop-alloc w g, or_stop-alloc w g, e) refl, at)

  -- What agreeing on `s` comes to, from the format `cur`.
  abbrev Agreed : Serialization → Serialization → Type 0
  Agreed cur s =
      w.serialization ≡ cur
      → (cs : ℕ → Client) × (agree fd s w
          ≡ (ok tt, record w { clients = cs; serialization = agreed cur s }))
        × ((k : ℕ) → cs k ≡ met fd w (changes cur s) k)

  abbrev clashes : Serialization → Serialization → Bool
  clashes cur s = not (same cur s) && (not (same cur dimeb) && not (same cur json))

  module _ (cur s : Serialization) where
    agree_first :
        same cur no_serialization ≡ true → agreed cur s ≡ s → changes cur s ≡ false → Agreed cur s
    unfolding agree set_serialization
    agree_first n a c e = (w.clients, rw (e, n, a) refl, λ k. rw c refl)

    agree_kept :
        same cur no_serialization ≡ false
        → clashes cur s ≡ false
        → agreed cur s ≡ cur
        → changes cur s ≡ false
        → Agreed cur s
    unfolding agree pure
    agree_kept n h a c e = (w.clients, rw (e, n, h, a) refl, λ k. rw c refl)

    agree_changed :
        same cur no_serialization ≡ false
        → clashes cur s ≡ true
        → agreed cur s ≡ dimeb
        → changes cur s ≡ true
        → Agreed cur s
    unfolding agree
    agree_changed n h a c e =
        let (cs, changed, at) = change_over-granted in
        let n : same w.serialization no_serialization ≡ false =
          ap (λ x. same x no_serialization) e ∙ n in
        let h : clashes w.serialization s ≡ true = ap (λ x. clashes x s) e ∙ h in
        (cs, rw (n, h, a) changed, λ k. rw c (at k))

  agree-Agreed : (cur s : Serialization) → Agreed cur s
  unfolding same agreed changes
  agree-Agreed no_serialization s = agree_first no_serialization s refl refl refl
  agree-Agreed matlab matlab = agree_kept matlab matlab refl refl refl refl
  agree-Agreed matlab no_serialization = agree_changed matlab no_serialization refl refl refl refl
  agree-Agreed matlab pickle = agree_changed matlab pickle refl refl refl refl
  agree-Agreed matlab dimeb = agree_changed matlab dimeb refl refl refl refl
  agree-Agreed matlab json = agree_changed matlab json refl refl refl refl
  agree-Agreed pickle no_serialization = agree_changed pickle no_serialization refl refl refl refl
  agree-Agreed pickle matlab = agree_changed pickle matlab refl refl refl refl
  agree-Agreed pickle pickle = agree_kept pickle pickle refl refl refl refl
  agree-Agreed pickle dimeb = agree_changed pickle dimeb refl refl refl refl
  agree-Agreed pickle json = agree_changed pickle json refl refl refl refl
  agree-Agreed dimeb s = agree_kept dimeb s refl (and_false (not (same dimeb s))) refl refl
  agree-Agreed json s = agree_kept json s refl (and_false (not (same json s))) refl refl

  -- Where memory is granted, a handshake with a known format ends with 0 where no TLS is used, and else
  -- as `dime_socket_init_tls` does, with 0, with -1 or at its assertion. In each case the server's format
  -- is the agreed one, the client's socket has got a reply that names it and says whether TLS is used,
  -- and of the other clients those that must change over are told so, once each. The other clients'
  -- table lists none twice.
  pub handshake_lem :
      (named : Named) (s : Serialization) (tls : Bool) (result : TlsResult)
      → serialization_of named ≡ some s
      → (cs : ℕ → Client) × (handshake fd (some (named, tls)) result w ≡ (
        tls_end (tls && w.has_tls) result,
        sent_to fd
            (handshake_reply (agreed w.serialization s) (tls && w.has_tls))
            (record w { clients = cs; serialization = agreed w.serialization s }),
      ))
        × ((k : ℕ) → cs k ≡ met fd w (changes w.serialization s) k)
  unfolding handshake greet answer tls_step ◌>>=◌ ◌>>◌ pure stop abort
  handshake_lem named s tls result known =
      let (cs, agreement, at) = agree-Agreed w.serialization s refl in
      let w₁ : World = record w { clients = cs; serialization = agreed w.serialization s } in
      let reply = handshake_reply w₁.serialization (tls && w.has_tls) in
      (
        cs,
        rw (known, agreement, or_stop-alloc w₁ g, or_stop-push w₁ fd reply g)
            (last (tls && w.has_tls) result (sent_to fd reply w₁)),
        at,
      )
    where
      last :
          (b : Bool) (result : TlsResult) (v : World)
          → (if b then tls_step result else pure tt) v ≡ (tls_end b result, v)
      last true tls_zero v = refl
      last true tls_negative v = refl
      last true tls_unread v = refl
      last false result v = refl
