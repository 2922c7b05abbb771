-- ===== src/Client/Messages/Owing.antt =====
-- The counts while a client that has gone gives up its references one by one, in
-- `dime_client_destroy`.
use dime.Base.{
  ℕ, ◌+◌, ◌*◌, ◌≤◌, ◌<◌, ◌^◌, ◌≡◌, refl, ap, subst, sym, ◌∙◌, Option, none, some, List, [], ◌∷◌,
  arith, length,
}
use dime.Deque.Valid.{IsValid}
use dime.World.{World, Message, ok, ◌>>=◌, update}
use dime.World.Logic.{Post, Leads}
use dime.Client.Groups.Counts.{count}
use dime.Client.Groups.Frame.{Local}
use dime.Client.Messages.{get_message, put_message, checked, kept, dec_refs, drop_ref}
use dime.Client.Messages.Queue.{update_other}
use dime.Client.Messages.Totals.{places, places_same, Covered, Covered-present, handed-Covered}
use dime.Client.Messages.Safe.{Bounded}

-- Counted, with one more place for each time that a message stands in `ids`.
pub record Owing (ids : List ℕ) (n : ℕ) (w : World) : Type 0 where
  pub granted : w.grants ≡ []
  pub valid : (k : ℕ) → IsValid (w.clients k).queue
  pub few : (k : ℕ) → (w.clients k).queue.len ≤ w.next_message
  pub roomy : (k : ℕ) → (w.clients k).queue.cap ≤ 16 + 2 * w.next_message
  pub owed : (id : ℕ) → Covered (w.messages id) (count id ids + places w.clients w.fds id)
  pub unused : (id : ℕ) → w.next_message ≤ id → w.messages id ≡ none
  pub few_fds : length w.fds < 2 ^ 32
  pub early : w.next_message ≤ n

-- Nothing is owed in the end.
pub Owing-Bounded : (n : ℕ) (w : World) → Owing [] n w → Bounded n w
Owing-Bounded n w o = (
  record {
    granted = o.granted;
    valid = o.valid;
    few = o.few;
    roomy = o.roomy;
    enough =
        λ id. subst (Covered (w.messages id)) (none_more (places w.clients w.fds id)) (o.owed id);
    unused = o.unused;
    few_fds = o.few_fds;
  },
  o.early,
)
  where
    none_more : (k : ℕ) → 0 + k ≡ k
    none_more k = omega arith

-- References that are never given up do no harm.
pub Owing-forgiven : (ids : List ℕ) (n : ℕ) (w : World) → Owing ids n w → Owing [] n w
unfolding Covered
Owing-forgiven ids n w o = record {
  granted = o.granted;
  valid = o.valid;
  few = o.few;
  roomy = o.roomy;
  owed = λ id. fewer (w.messages id) _ _ (omega arith) (o.owed id);
  unused = o.unused;
  few_fds = o.few_fds;
  early = o.early;
}
  where
    fewer : (o : Option Message) (n n' : ℕ) → n' ≤ n → Covered o n → Covered o n'
    fewer none n n' h c = omega arith
    fewer (some m) n n' h (enough, small) = (omega arith, small)

-- The links do not matter.
pub Owing-Local : (fd : ℕ) (ids : List ℕ) (n : ℕ) → Local fd (Owing ids n)
Owing-Local fd ids n = record {
  calm = record {
    move = λ w w' q o. record {
      granted = q.links.stays_granted o.granted;
      valid = λ k. subst IsValid (sym (q.queue_of k)) (o.valid k);
      few = λ k. omega (arith, o.few k, q.same_next, ap (λ d. d.len) (q.queue_of k));
      roomy = λ k. omega (arith, o.roomy k, q.same_next, ap (λ d. d.cap) (q.queue_of k));
      owed = λ id.
          let same : places w'.clients w'.fds id ≡ places w.clients w.fds id =
            ap (λ fds. places w'.clients fds id) q.links.same_fds
            ∙ places_same w.clients w'.clients w.fds id q.queue_of in
          subst (λ ms. Covered (ms id) (count id ids + places w'.clients w'.fds id))
            (sym q.same_messages)
            (subst (λ k. Covered (w.messages id) (count id ids + k)) (sym same) (o.owed id));
      unused = λ id h. ap (λ ms. ms id) q.same_messages ∙ o.unused id (omega (arith, q.same_next));
      few_fds = omega (arith, o.few_fds, ap length q.links.same_fds);
      early = omega (arith, o.early, q.same_next);
    };
  };
  on_groups = λ w groups names o. record {
    granted = o.granted;
    valid = o.valid;
    few = o.few;
    roomy = o.roomy;
    owed = o.owed;
    unused = o.unused;
    few_fds = o.few_fds;
    early = o.early;
  };
  on_client = λ w f same o.
      let cs = update w.clients fd (f (w.clients fd)) in
      let queue_of : (k : ℕ) → (cs k).queue ≡ (w.clients k).queue =
        λ k. ground (arith, same (w.clients fd)) in
      record {
        granted = o.granted;
        valid = λ k. subst IsValid (sym (queue_of k)) (o.valid k);
        few = λ k. omega (arith, o.few k, ap (λ d. d.len) (queue_of k));
        roomy = λ k. omega (arith, o.roomy k, ap (λ d. d.cap) (queue_of k));
        owed = λ id.
            subst (λ k. Covered (w.messages id) (count id ids + k))
              (sym (places_same w.clients cs w.fds id queue_of)) (o.owed id);
        unused = o.unused;
        few_fds = o.few_fds;
        early = o.early;
      };
}

drop_ref-granted :
    (w : World) (id : ℕ) (m : Message)
    → w.messages id ≡ some m
    → drop_ref id w ≡ (ok tt, record w { messages = update w.messages id (kept (dec_refs m)) })
unfolding drop_ref get_message put_message checked ◌>>=◌
drop_ref-granted w id m here = rw here refl

-- A message that is owed is there.
pub drop_ref-Owing :
    {E : World → Type 0} (id : ℕ) (ids : List ℕ) (n : ℕ)
    → Leads (Owing (id ∷ ids) n) (Owing ids n) E (drop_ref id)
drop_ref-Owing {E} id ids n = record {
  out = λ w o.
      let all = count id ids + places w.clients w.fds id in
      let (m, here) =
        Covered-present (w.messages id) all
          (subst (Covered (w.messages id)) (ground arith) (o.owed id)) in
      subst (Post (Owing ids n) E) (sym (drop_ref-granted w id m here)) (record {
        granted = o.granted;
        valid = o.valid;
        few = o.few;
        roomy = o.roomy;
        owed = handed-Covered id ids w.messages (places w.clients w.fds) m here o.owed;
        unused = λ k h.
            update_other w.messages id (kept (dec_refs m)) k
              (λ same. cc (here, o.unused k h, ap w.messages same))
            ∙ o.unused k h;
        few_fds = o.few_fds;
        early = o.early;
      });
}
