-- ===== src/Server/Trusted/Clients.antt =====
-- Clients that come and go where memory is granted.
use dime.Base.{
  ℕ, suc, ◌+◌, ◌≤◌, ◌<◌, ◌^◌, ◌≡◌, refl, ap, subst, sym, true, List, [], ◌∷◌, ◌++◌, arith,
  if◌then◌else◌, length, length-append, ℕ_discrete,
}
use dime.Deque.Valid.{contents}
use dime.World.{World, Client, ◌>>=◌, ◌>>◌, elem, modify_client}
use dime.World.Logic.{Post, Leads, Keeps, then-Leads, pure-Leads}
use dime.World.After.{Post-and-End}
use dime.Client.Groups.Counts.{count, count_zero-elem}
use dime.Client.Messages.Totals.{places, places-append, Covered}
use dime.Client.Messages.Safe.{Bounded, Bounded-Local}
use dime.Client.Messages.Owing.{Owing, Owing-Bounded}
use dime.Client.Session.Arrived.{Newcomer}
use dime.Client.Session.Released.{destroy-Owing}
use dime.Server.{unwatch, add_fd, without, remove_fd, blank, release, discard, hang_up}
use dime.Server.Sound.{Sound}
use dime.Server.Sound.Gone.{hang_up-Sound}

-- A sound server that counts its messages, of which there have been at most `n`.
abbrev pub Kept : ℕ → World → Type 0
Kept n w = Bounded n w × Sound w

length-without : (fd : ℕ) (ks : List ℕ) → length (without fd ks) ≤ length ks
length-without fd [] = omega arith
length-without fd (k ∷ ks) = ground (arith, length-without fd ks)

places_left :
    (cs : ℕ → Client) (fd : ℕ) (ks : List ℕ) (id : ℕ)
    → count fd ks ≤ 1
    → (if elem fd ks then count id (contents 0 (cs fd).queue) else 0) + places cs (without fd ks) id
      ≡ places cs ks id
unfolding places
places_left cs fd [] id once = omega arith
places_left cs fd (k ∷ ks) id once = elim (ℕ_discrete k fd) [
  | yes here ↦
      let later : count fd ks ≡ 0 = ground (arith, here) in
      ground (
        arith,
        ap (λ i. count id (contents 0 (cs i).queue)) here,
        count_zero-elem fd ks later,
        places_left cs fd ks id (omega (arith, later)),
      )
  | no away ↦ ground (arith, places_left cs fd ks id (ground (arith, once)))
]

places-without :
    (cs : ℕ → Client) (fd : ℕ) (ks : List ℕ) (id : ℕ)
    → elem fd ks ≡ true
    → count fd ks ≤ 1
    → count id (contents 0 (cs fd).queue) + places cs (without fd ks) id ≡ places cs ks id
places-without cs fd ks id connected once = ground (arith, connected, places_left cs fd ks id once)

-- One more client with nothing in its queue.
places-one :
    (cs : ℕ → Client) (fds : List ℕ) (fd id : ℕ)
    → count id (contents 0 (cs fd).queue) ≡ 0
    → places cs (fds ++ (fd ∷ [])) id ≡ places cs fds id
unfolding places
places-one cs fds fd id none_there = omega (arith, places-append cs fds (fd ∷ []) id)

module _ (fd n : ℕ) where
  release-Bounded : Keeps (Bounded n) (release fd)
  unfolding release blank modify_client
  release-Bounded = record { out = λ w b. (Bounded-Local fd n).on_client w blank (λ c. refl) b }

  -- A client that goes leaves its places owed.
  remove_fd-Owing :
      (w : World)
      → Bounded n w
      → count fd w.fds ≤ 1
      → elem fd w.fds ≡ true
      → Owing (contents 0 (w.clients fd).queue) n (record w { fds = without fd w.fds })
  remove_fd-Owing w (c, early) once connected = record {
    granted = c.granted;
    valid = c.valid;
    few = c.few;
    roomy = c.roomy;
    owed = λ id.
        subst (Covered (w.messages id)) (sym (places-without w.clients fd w.fds id connected once))
          (c.enough id);
    unused = c.unused;
    few_fds = omega (arith, c.few_fds, length-without fd w.fds);
    early = early;
  }

  discard-Bounded :
      Leads (λ w. Owing (contents 0 (w.clients fd).queue) n w) (Bounded n) (Bounded n) (discard fd)
  unfolding discard
  discard-Bounded =
      then-Leads (destroy-Owing n fd)
        (record { out = λ w o. release-Bounded.out w (Owing-Bounded n w o) })

  hang_up-Bounded :
      (w : World)
      → Bounded n w
      → count fd w.fds ≤ 1
      → elem fd w.fds ≡ true
      → Post (Bounded n) (Bounded n) (hang_up fd w)
  unfolding hang_up remove_fd ◌>>=◌ ◌>>◌
  hang_up-Bounded w b once connected =
      (then-Leads discard-Bounded (pure-Leads (unwatch fd ∷ []))).out
        (record w { fds = without fd w.fds }) (remove_fd-Owing w b once connected)

  pub hang_up-Kept : Leads (λ w. Kept n w × (elem fd w.fds ≡ true)) (Kept n) (Kept n) (hang_up fd)
  hang_up-Kept = record {
    out = λ w ((b, h), connected).
        Post-and-End (Bounded n) Sound (Bounded n) Sound _
          (hang_up-Bounded w b (h.listed_once fd) connected) ((hang_up-Sound fd).out w h);
  }

  -- A new client is let go again.
  pub drop_new-Bounded : Leads (Newcomer fd n) (Bounded n) (Bounded n) (discard fd)
  drop_new-Bounded = record {
    out = λ w ((c, early), is_empty). discard-Bounded.out w (record {
      granted = c.granted;
      valid = c.valid;
      few = c.few;
      roomy = c.roomy;
      owed = λ id.
          subst (Covered (w.messages id)) (omega (arith, ap (count id) is_empty)) (c.enough id);
      unused = c.unused;
      few_fds = c.few_fds;
      early = early;
    });
  }

  pub add_fd-Bounded :
      (w : World)
      → Newcomer fd n w
      → suc (length w.fds) < 2 ^ 32
      → Post (Bounded n) (Bounded n) (add_fd fd w)
  unfolding add_fd
  add_fd-Bounded w ((c, early), is_empty) few = (
    record {
      granted = c.granted;
      valid = c.valid;
      few = c.few;
      roomy = c.roomy;
      enough = λ id.
          subst (Covered (w.messages id))
            (sym (places-one w.clients w.fds fd id (ap (count id) is_empty))) (c.enough id);
      unused = c.unused;
      few_fds = omega (arith, length-append w.fds (fd ∷ []), few);
    },
    early,
  )
