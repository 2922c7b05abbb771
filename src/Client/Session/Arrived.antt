-- ===== src/Client/Session/Arrived.antt =====
-- `dime_client_init`: the queue of a new client, and the counts of messages.
use dime.Base.{
  ℕ, ◌≤◌, ◌≡◌, ap, subst, sym, ◌∙◌, Bool, false, [], arith, length, ℕ_discrete, Option-cases, inl,
  inr,
}
use dime.Deque.{Deque}
use dime.Deque
use dime.Deque.Valid.{IsValid, contents, length-contents, init-IsValid, cap-init}
use dime.World.{World, Client, update, elem, alloc, modify_client}
use dime.World.Logic.{Leads, Keeps, bind-Leads, then-Leads}
use dime.World.Links.{Calm, alloc-Keeps, stop-Leads}
use dime.Client.Messages.Totals.{places_absent, Covered}
use dime.Client.Messages.Queue.{update_same, update_other}
use dime.Client.Messages.Safe.{Bounded, Bounded-Calm}
use dime.Client.Session.{or_stop, set_client, init}
use dime.Client.Session.Links.{or_stop-Keeps}

module _ (fd n : ℕ) where
  -- The client `fd` is not in the table.
  abbrev pub Outside : World → Type 0
  Outside w = Bounded n w × (elem fd w.fds ≡ false)

  -- Nor has it anything in its queue.
  abbrev pub Newcomer : World → Type 0
  Newcomer w = Bounded n w × (contents 0 (w.clients fd).queue ≡ [])

  Outside-Calm : Calm Outside
  Outside-Calm = record {
    move = λ w w' q (b, out). ((Bounded-Calm n).move w w' q b, ap (elem fd) q.links.same_fds ∙ out);
  }

  fresh : Deque ℕ → Client
  fresh q = record { waiting = false; groups = []; groups_cap = 4; sent = []; queue = q }

  fresh-Newcomer :
      (w : World) (q : Deque ℕ)
      → Outside w
      → IsValid q
      → contents 0 q ≡ []
      → q.cap ≤ 16
      → Newcomer (record w { clients = update w.clients fd (fresh q) })
  unfolding fresh
  fresh-Newcomer w q ((c, early), out) v is_empty small =
      let cs = update w.clients fd (fresh q) in
      let len : q.len ≡ 0 = omega (arith, ap length is_empty, length-contents 0 q) in
      (
        (
          record {
            granted = c.granted;
            valid = λ k. elim (ℕ_discrete k fd) [
              | yes here ↦
                  subst (λ i. IsValid (cs i).queue) (sym here)
                    (subst (λ c. IsValid c.queue) (sym (update_same w.clients fd (fresh q))) v)
              | no away ↦
                  subst (λ c. IsValid c.queue) (sym (update_other w.clients fd (fresh q) k away))
                    (c.valid k)
            ];
            few = λ k. ground (arith, c.few k, len);
            roomy = λ k. ground (arith, c.roomy k, small);
            enough = λ id.
                subst (Covered (w.messages id))
                  (sym (places_absent w.clients fd (fresh q) w.fds id out)) (c.enough id);
            unused = c.unused;
            few_fds = c.few_fds;
          },
          early,
        ),
        ap (λ c. contents 0 c.queue) (update_same w.clients fd (fresh q)) ∙ is_empty,
      )

  set_client-Newcomer :
      (granted : Bool)
      → Leads Outside Newcomer Outside (set_client fd (Deque.init {A = ℕ} 0 granted 0))
  unfolding set_client modify_client fresh
  set_client-Newcomer granted = elim (Option-cases (Deque.init {A = ℕ} 0 granted 0)) [
    | inl failed ↦ rw (failed, set_client) (stop-Leads Outside-Calm)
    | inr (q, made) ↦
        let (v, is_empty) = init-IsValid {A = ℕ} 0 granted 0 made in
        rw (made, set_client)
          (record {
            out = λ w o. fresh-Newcomer w q o v is_empty (cap-init {A = ℕ} 0 granted 0 made);
          })
  ]

  pub init-Newcomer : Leads Outside Newcomer Outside (init fd)
  unfolding init
  init-Newcomer = then-Leads grant (
      then-Leads grant
        (then-Leads grant (bind-Leads (alloc-Keeps Outside-Calm) set_client-Newcomer)))
    where
      grant : Keeps Outside (or_stop alloc)
      grant = or_stop-Keeps Outside-Calm (alloc-Keeps Outside-Calm)
