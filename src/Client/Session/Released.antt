-- ===== src/Client/Session/Released.antt =====
-- `dime_client_destroy`: the references of a client that goes.
use dime.Base.{ℕ, suc, ◌+◌, ◌≡◌, ap, ◌∙◌, some, List, [], ◌∷◌, arith, dec_lt}
use dime.Deque.{Deque}
use dime.Deque
use dime.Deque.Valid.{IsValid, contents}
use dime.Deque.Iterate.{walk_lem, walk_full}
use dime.World.{World, ◌>>=◌}
use dime.World.Logic.{Leads, then-Leads, pure-Leads}
use dime.Client.Groups.{get_client}
use dime.Client.Messages.Owing.{Owing, Owing-forgiven, Owing-Local, drop_ref-Owing}
use dime.Client.Session.{drop_refs, drop_walked, destroy}
use dime.Client.Session.Teardown.{leave_groups-Local}

walked_full :
    (q : Deque ℕ)
    → IsValid q
    → q.len ≡ q.cap
    → Deque.walk 0 (q.cap + 1) q (Deque.iter_init 0 q) ≡ some []
walked_full q v is_full =
    ap (λ k. Deque.walk 0 k q (Deque.iter_init 0 q)) (one_more q.cap)
    ∙ walk_full 0 q v q.cap is_full
  where
    one_more : (k : ℕ) → k + 1 ≡ suc k
    one_more k = omega arith

module _ (n : ℕ) {E : World → Type 0} where
  drop_refs-Owing : (ids : List ℕ) → Leads (Owing ids n) (Owing [] n) E (drop_refs ids)
  unfolding drop_refs
  drop_refs-Owing [] = pure-Leads tt
  drop_refs-Owing (id ∷ ids) = then-Leads (drop_ref-Owing id ids n) (drop_refs-Owing ids)

  -- The walk sees all entries, or none where the queue is full.
  drop_walked-Owing :
      (q : Deque ℕ)
      → IsValid q
      → Leads
          (Owing (contents 0 q) n)
          (Owing [] n)
          E
          (drop_walked (Deque.walk 0 (q.cap + 1) q (Deque.iter_init 0 q)))
  unfolding drop_walked
  drop_walked-Owing q v = elim (dec_lt q.len q.cap) [
    | yes room ↦ rw (walk_lem 0 q v (q.cap + 1) room (omega arith)) (drop_refs-Owing (contents 0 q))
    | no is_full ↦
        rw (walked_full q v (omega (arith, v.within)))
          (record { out = λ w o. (drop_refs-Owing []).out w (Owing-forgiven (contents 0 q) n w o) })
  ]

  pub destroy-Owing :
      (fd : ℕ)
      → Leads (λ w. Owing (contents 0 (w.clients fd).queue) n w) (Owing [] n) E (destroy fd)
  unfolding destroy get_client ◌>>=◌
  destroy-Owing fd = record {
    out = λ w o.
        (then-Leads
            (leave_groups-Local (Owing-Local fd (contents 0 (w.clients fd).queue) n)
              (w.clients fd).groups)
            (drop_walked-Owing (w.clients fd).queue (o.valid fd))).out
          w o;
  }
