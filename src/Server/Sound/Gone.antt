-- ===== src/Server/Sound/Gone.antt =====
-- Clients that come into the table of clients or go from it, and the invariant about the links and
-- the table.
use dime.Base.{ℕ, ◌≤◌, ◌≡◌, ◌≢◌, refl, ap, sym, ◌∙◌, false, List, [], ◌∷◌, arith, ℕ_discrete}
use dime.World.{World, elem, modify_client}
use dime.World.Links.{Stable, Stable-Calm}
use dime.World.After.{Ends, then-Ends, pure-Ends, both-Ends, change-Ends}
use dime.Client.Groups.Counts.{count, count-append, elem-append, elem-false}
use dime.Client.Groups.Frame.{Local}
use dime.Client.Session.Teardown.{Leaving, destroy-Leaving, destroy-Local}
use dime.Server.{add_fd, without, remove_fd, blank, release, discard, hang_up}
use dime.Server.Sound.{Sound, Sound-Stable}

pub elem-without : (fd : ℕ) (ks : List ℕ) → elem fd (without fd ks) ≡ false
elem-without fd [] = refl
elem-without fd (k ∷ ks) = ground (arith, elem-without fd ks)

pub elem-without_other :
    (fd : ℕ) (ks : List ℕ) (k : ℕ) → k ≢ fd → elem k (without fd ks) ≡ elem k ks
elem-without_other fd [] k n = refl
elem-without_other fd (x ∷ ks) k n = ground (arith, elem-without_other fd ks k n)

count-without : (fd : ℕ) (ks : List ℕ) (k : ℕ) → count k (without fd ks) ≤ count k ks
count-without fd [] k = omega arith
count-without fd (x ∷ ks) k = ground (arith, count-without fd ks k)

-- A client that has gone from the table of clients.
record Away (fd : ℕ) (w : World) : Type 0 where
  gone : elem fd w.fds ≡ false
  members_open : (k : ℕ) → k ≢ fd → elem k w.fds ≡ false → (w.clients k).groups ≡ []
  listed_once : (k : ℕ) → count k w.fds ≤ 1

Away-Stable : (fd : ℕ) → Stable (Away fd)
Away-Stable fd = record {
  move = λ w w' s a. record {
    gone = ap (elem fd) s.same_fds ∙ a.gone;
    members_open =
        λ k n out. s.groups_of k ∙ a.members_open k n (ap (elem k) (sym s.same_fds) ∙ out);
    listed_once = λ k. ground (arith, ap (count k) s.same_fds, a.listed_once k);
  };
}

Away-Local : (fd : ℕ) → Local fd (Away fd)
Away-Local fd = record {
  calm = Stable-Calm (Away-Stable fd);
  on_groups = λ w groups names a. record {
    gone = a.gone;
    members_open = a.members_open;
    listed_once = a.listed_once;
  };
  on_client = λ w f q a. record {
    gone = a.gone;
    members_open = λ k n out. ground (arith, a.members_open k n out);
    listed_once = a.listed_once;
  };
}

module _ (fd : ℕ) where
  -- Before and after the teardown.
  abbrev Left : World → Type 0
  Left w = Leaving fd (w.clients fd).groups w × Away fd w

  remove_fd-Left : {E : World → Type 0} → Ends Sound Left E (remove_fd fd)
  unfolding remove_fd
  remove_fd-Left = record {
    out = λ w h. (
      record {
        elsewhere = λ k name n. h.linked.both k name;
        left = λ name. h.linked.both fd name;
        once = h.linked.once;
        known = h.linked.known;
      },
      record {
        gone = elem-without fd w.fds;
        members_open = λ k n out. h.members_open k (sym (elem-without_other fd w.fds k n) ∙ out);
        listed_once = λ k. omega (arith, count-without fd w.fds k, h.listed_once k);
      },
    );
  }

  release-Sound :
      {E : World → Type 0} → Ends (λ w. Leaving fd [] w × Away fd w) Sound E (release fd)
  unfolding release blank modify_client
  release-Sound = record {
    out = λ w (l, a). record {
      linked = record {
        both = λ k name. elim (ℕ_discrete k fd) [
          | yes here ↦ ground (arith, l.left name)
          | no away ↦ ground (arith, l.elsewhere k name away)
        ];
        once = λ k name. ground (arith, l.once k name);
        known = l.known;
      };
      members_open = λ k out. elim (ℕ_discrete k fd) [
        | yes here ↦ ground arith
        | no away ↦ ground (arith, a.members_open k away out)
      ];
      listed_once = a.listed_once;
    };
  }

  discard-Sound : {E : World → Type 0} → Ends Left Sound E (discard fd)
  unfolding discard
  discard-Sound {E} =
      then-Ends
        (change-Ends {E = λ w. E w × E w} (λ w l. l) (λ w l. l) (λ w e. e.0)
          (both-Ends (destroy-Leaving fd) (destroy-Local (Away-Local fd) (Away-Stable fd))))
        release-Sound

  -- Whoever hangs up, in the table or not.
  pub hang_up-Sound : {E : World → Type 0} → Ends Sound Sound E (hang_up fd)
  unfolding hang_up
  hang_up-Sound = then-Ends remove_fd-Left (then-Ends discard-Sound (pure-Ends _))

  -- A client that is not in the table.
  abbrev pub Absent : World → Type 0
  Absent w = Sound w × (elem fd w.fds ≡ false)

  pub Absent-Stable : Stable Absent
  Absent-Stable = record {
    move = λ w w' s (h, out). (Sound-Stable.move w w' s h, ap (elem fd) s.same_fds ∙ out);
  }

  Absent-Left : (w : World) → Absent w → Left w
  Absent-Left w (h, out) = (
    record {
      elsewhere = λ k name n. h.linked.both k name;
      left = λ name. h.linked.both fd name;
      once = h.linked.once;
      known = h.linked.known;
    },
    record { gone = out; members_open = λ k n. h.members_open k; listed_once = h.listed_once },
  )

  pub add_fd-Sound : {E : World → Type 0} → Ends Absent Sound E (add_fd fd)
  unfolding add_fd
  add_fd-Sound = record {
    out = λ w (h, out). record {
      linked = record { both = h.linked.both; once = h.linked.once; known = h.linked.known };
      members_open = λ k n. h.members_open k (ground (arith, elem-append k w.fds (fd ∷ [])));
      listed_once = λ k.
          ground (arith, h.listed_once k, count-append k w.fds (fd ∷ []), elem-false fd w.fds out);
    };
  }

  pub drop_new-Sound : {E : World → Type 0} → Ends Absent Sound E (discard fd)
  drop_new-Sound = change-Ends Absent-Left (λ w h. h) (λ w e. e) discard-Sound
