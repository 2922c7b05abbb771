-- ===== src/Client/Messages/Early.antt =====
-- A message that counts one reference and stands in two queues.
use dime.Base.{
  ℕ, suc, ◌≡◌, ◌≢◌, refl, ap, subst, sym, ◌∙◌, none, some, List, [], ◌∷◌, arith, take, take_all,
  inl, inr,
}
use dime.Deque.Valid.{IsValid, contents}
use dime.Deque.Pop.{popl_lem}
use dime.World.{
  World, Message, ok, aborted, ◌>>=◌, ◌>>◌, update, modify_client, deliver, status_ok, add_sent,
}
use dime.World.Granted.{sent_to}
use dime.Client.Groups.{get_client}
use dime.Client.Messages.{
  nonneg, limit, get_message, checked, kept, dec_refs, set_queue, sync_message, sync_round,
  sync_loop, sync,
}
use dime.Client.Messages.Queue.{update_same, update_other}
use dime.Client.Messages.Sync.{Deliveries, sync_lem}

head_same : (p id : ℕ) (xs ys : List ℕ) → (p ∷ xs) ≡ (id ∷ ys) → p ≡ id
head_same p id xs ys e = cc e

-- A client whose first message is gone.
sync_gone :
    (w : World) (b id k : ℕ) (rest : List ℕ)
    → IsValid (w.clients b).queue
    → contents 0 (w.clients b).queue ≡ id ∷ rest
    → w.messages id ≡ none
    → (w' : World) × (sync b (some (nonneg (suc k))) w ≡ (aborted, w'))
unfolding sync limit sync_loop sync_round sync_message get_client get_message checked modify_client
    ◌>>=◌ ◌>>◌
sync_gone w b id k rest v held gone = elim (popl_lem 0 (w.clients b).queue v) [
  | inl (is_empty, e) ↦ cc (is_empty, held)
  | inr (p, q, popped, v', here) ↦
      let same : p ≡ id = head_same p id _ rest (sym here ∙ held) in
      let gone_p : w.messages p ≡ none = ap w.messages same ∙ gone in
      (
        record w { clients = update w.clients b (set_queue q (w.clients b)) },
        rw (popped, gone_p) refl,
      )
]

last_kept : (m : Message) → m.refs ≡ 1 → kept (dec_refs m) ≡ none
unfolding kept dec_refs
last_kept m one = ground arith

-- Where a message counts one reference and stands alone in the queue of one client and first in that of
-- another, as it does when the second could not be told of it, the first client's request for one
-- message or more frees it, and the second's request for one or more then goes to the freed message.
-- Both requests name a number, which is not negative. Memory is granted, and the queues are valid.
pub freed_early :
    (w : World) (a b id j k : ℕ) (rest : List ℕ) (m : Message)
    → w.grants ≡ []
    → a ≢ b
    → IsValid (w.clients a).queue
    → IsValid (w.clients b).queue
    → contents 0 (w.clients a).queue ≡ id ∷ []
    → contents 0 (w.clients b).queue ≡ id ∷ rest
    → w.messages id ≡ some m
    → m.refs ≡ 1
    → (w₁ : World) × (w₂ : World) × (sync a (some (nonneg (suc j))) w ≡ (ok tt, w₁))
      × (sync b (some (nonneg (suc k))) w₁ ≡ (aborted, w₂))
unfolding Deliveries limit add_sent
freed_early w a b id j k rest m g apart va vb held_a held_b here one =
    let ms = update w.messages id (kept (dec_refs m)) in
    let reply = deliver m.jsondata m.bindata in
    let all : take (suc j) (contents 0 (w.clients a).queue) ≡ id ∷ [] =
      ap (take (suc j)) held_a ∙ take_all (suc j) (id ∷ []) (omega arith) in
    let (cs, ended, s, same) = sync_lem w a (nonneg (suc j)) (reply ∷ []) ms g va (
      subst (λ ids. Deliveries ids w.messages (reply ∷ []) ms) (sym all)
        (m, here, [], refl, (refl, refl))) in
    let w₁ = sent_to a status_ok (record w { clients = cs; messages = ms }) in
    let other : b ≢ a = λ e. apart (sym e) in
    let same_b : w₁.clients b ≡ w.clients b =
      update_other cs a (add_sent status_ok (cs a)) b other ∙ same b other in
    let (w₂, fault) =
      sync_gone w₁ b id k rest (subst (λ c. IsValid c.queue) (sym same_b) vb)
        (ap (λ c. contents 0 c.queue) same_b ∙ held_b)
        (update_same w.messages id (kept (dec_refs m)) ∙ last_kept m one) in
    (w₁, w₂, ended, fault)
