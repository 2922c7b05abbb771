-- ===== src/Server/Trusted/Delivered.antt =====
-- A request to send, followed by one of a receiver to be handed what it has.
use dime.Base.{
  ℕ, zero, suc, ◌+◌, ◌≤◌, ◌<◌, ◌^◌, ◌≡◌, refl, ap, ap₂, subst, sym, ◌∙◌, true, some, List, [], ◌∷◌,
  ◌++◌, arith, if◌then◌else◌, length, take, drop, take_all, append_assoc, append-nil, ℕ_discrete,
  size_max,
}
use dime.Deque.Valid.{contents, length-contents}
use dime.World.{World, Message, Reply, ok, elem, deliver, status_ok, pending, add_sent}
use dime.World.Logic.{Post}
use dime.World.Granted.{sent_to}
use dime.Client.Groups.Counts.{count}
use dime.Client.Messages.{negative, limit, send}
use dime.Client.Messages.Queue.{update_same}
use dime.Client.Messages.Counted.{Counted-Ready}
use dime.Client.Messages.Deliver.{Sent, send-Sent}
use dime.Client.Messages.Handed.{given}
use dime.Client.Messages.Safe.{Bounded, send-Bounded}
use dime.Client.Messages.Sync.{Deliveries, sync_lem}
use dime.Client.Messages.Told.{HasText, last-Deliveries}
use dime.Client.Messages.Totals.{count-Distinct, length_within}
use dime.Request.{dispatch, send_request, sync_request}
use dime.Server.Sound.{Sound-open}
use dime.Server.Trusted.{Trusted, members_once}

-- Replies in a row.
in_a_row :
    (xs ys zs : List Reply) (y z : Reply)
    → ((xs ++ ys) ++ (zs ++ (y ∷ []))) ++ (z ∷ []) ≡ xs ++ ((ys ++ zs) ++ (y ∷ z ∷ []))
in_a_row xs ys zs y z =
    append_assoc (xs ++ ys) (zs ++ (y ∷ [])) (z ∷ [])
    ∙ ap (λ l. (xs ++ ys) ++ l) (append_assoc zs (y ∷ []) (z ∷ []))
    ∙ append_assoc xs ys (zs ++ (y ∷ z ∷ []))
    ∙ ap (λ l. xs ++ l) (sym (append_assoc ys zs (y ∷ z ∷ [])))

drop_all : {A : Type 0} (n : ℕ) (xs : List A) → length xs ≤ n → drop n xs ≡ []
drop_all zero [] h = refl
drop_all zero (x ∷ xs) h = absurd (omega arith)
drop_all (suc n) [] h = refl
drop_all (suc n) (x ∷ xs) h = drop_all n xs (omega arith)

module _ (a k name n : ℕ) (jsondata bindata : List ℕ) (w : World) (t : Trusted a n w)
    (early : n + 1 < 2 ^ 60) (known : elem name w.names ≡ true)
    (member : elem k (w.groups name).clnts ≡ true) where
  abbrev message : Message
  message = record { refs = 0; jsondata = jsondata; bindata = bindata }

  some_member : (xs : List ℕ) → elem k xs ≡ true → 0 < length xs
  some_member [] h = cc
  some_member (x ∷ xs) h = omega arith

  sending :
      (w₁ : World) × (send a (some name) jsondata bindata w ≡ (ok tt, w₁))
      × Sent a (w.groups name).clnts message w w₁
  sending =
      let once = members_once a n w t (omega arith) name in
      send-Sent w a name jsondata bindata t.0.0.granted known
        (some_member (w.groups name).clnts member)
        (omega (
          arith,
          length_within (w.groups name).clnts w.fds once (λ i e. Sound-open w i name t.1.0 e),
          t.0.0.few_fds,
        ))
        (count-Distinct (w.groups name).clnts once)
        (λ i e. Counted-Ready w i t.0.0 (omega (arith, t.0.1)))

  -- The reply to the sender, which may be the receiver, comes behind what the receiver has been told.
  replied_behind :
      (v : World)
      → (earlier : List Reply) × (((sent_to a status_ok v).clients k).sent
          ≡ (v.clients k).sent ++ earlier)
        × (((sent_to a status_ok v).clients k).queue ≡ (v.clients k).queue)
  unfolding add_sent
  replied_behind v = elim (ℕ_discrete k a) [
    | yes same ↦ (status_ok ∷ [], ground (arith, same), ground (arith, same))
    | no other ↦ ([], ground (arith, append-nil (v.clients k).sent), ground arith)
  ]

  -- The receiver's side of it: what the receiver had is followed by the new message.
  received :
      (w₁ : World)
      → Sent a (w.groups name).clnts message w w₁
      → (earlier : List Reply) × ((w₁.clients k).sent ≡ (w.clients k).sent ++ earlier)
        × (contents 0 (w₁.clients k).queue
            ≡ contents 0 (w.clients k).queue ++ (w.next_message ∷ []))
        × HasText jsondata bindata (w₁.messages w.next_message)
        × (w₁.fds ≡ w.fds)
  unfolding HasText
  received w₁ s =
      let v = s.served_world in
      let r = s.served.told_all k member in
      let (behind, sent, queue) = replied_behind v in
      let notice =
        if (w.clients k).waiting then pending ((w.clients k).queue.len + 1) ∷ [] else [] in
      (
        notice ++ behind,
        ap (λ u. (u.clients k).sent) s.replied
            ∙ sent
            ∙ ap (λ x. x ++ behind) r.told_if_waiting
            ∙ append_assoc (w.clients k).sent notice behind,
        ap (λ u. contents 0 (u.clients k).queue) s.replied ∙ ap (contents 0) queue ∙ r.queued,
        subst (HasText jsondata bindata)
            (sym (ap (λ u. u.messages w.next_message) s.replied ∙ s.served.counted)) (refl, refl),
        ap (λ u. u.fds) s.replied ∙ ap (λ u. u.fds) s.served.rest,
      )

  counted_after :
      (w₁ : World) → send a (some name) jsondata bindata w ≡ (ok tt, w₁) → Bounded (suc n) w₁
  counted_after w₁ sent = subst (Post (Bounded (suc n)) (Bounded (suc n))) sent (
      send-Bounded w n t.0 (omega arith) t.1.0.listed_once a name jsondata bindata
        (members_once a n w t (omega arith) name) (λ i e. Sound-open w i name t.1.0 e))

-- A message that a client sends to a group is the last that a member is handed when it then asks for
-- all it has: where memory is granted, both requests end well, the member's socket gets, behind what
-- it had and perhaps other replies, the message's text and binary part and then the status, and its
-- queue is empty. The server is sound and counts its messages, there are fewer than 2 ^ 60 of these,
-- the sender is connected, and the group is known.
pub delivered_lem :
    (a k name n : ℕ) (jsondata bindata : List ℕ) (w : World)
    → Trusted a n w
    → n + 1 < 2 ^ 60
    → elem name w.names ≡ true
    → elem k (w.groups name).clnts ≡ true
    → (w₁ : World) × (w₂ : World) × (dispatch a (send_request (some name) jsondata bindata) w
        ≡ (ok tt, w₁))
      × (dispatch k (sync_request (some negative)) w₁ ≡ (ok tt, w₂))
      × ((earlier : List Reply) × ((w₂.clients k).sent
            ≡ (w.clients k).sent ++ (earlier ++ (deliver jsondata bindata ∷ status_ok ∷ []))))
      × (contents 0 (w₂.clients k).queue ≡ [])
unfolding dispatch limit add_sent
delivered_lem a k name n jsondata bindata w t early known member =
    let (w₁, sent, s) = sending a k name n jsondata bindata w t early known member in
    let (before, told, queued, text, same_fds) =
      received a k name n jsondata bindata w t early known member w₁ s in
    let b = counted_after a k name n jsondata bindata w t early known member w₁ sent in
    let once : (i : ℕ) → count i w₁.fds ≤ 1 =
      λ i. omega (arith, ap (count i) same_fds, t.1.0.listed_once i) in
    let open_k : elem k w₁.fds ≡ true = ap (elem k) same_fds ∙ Sound-open w k name t.1.0 member in
    let q = contents 0 (w₁.clients k).queue in
    let all : take size_max q ≡ q =
      take_all size_max q (omega (arith, length-contents 0 (w₁.clients k).queue, b.0.few k, b.1)) in
    let (replies, ms, d, left) = given w₁ (suc n) b once k open_k size_max in
    let (cs, synced, y, others_same) =
      sync_lem w₁ k negative replies ms b.0.granted (b.0.valid k) d in
    let (handed, last) =
      last-Deliveries (contents 0 (w.clients k).queue) w.next_message w₁.messages replies ms
        jsondata bindata text
        (subst (λ ids. Deliveries ids w₁.messages replies ms) (all ∙ queued) d) in
    let after : World = record w₁ { clients = cs; messages = ms } in
    let few : length q ≤ size_max =
      omega (arith, length-contents 0 (w₁.clients k).queue, b.0.few k, b.1) in
    let replied = update_same cs k (add_sent status_ok (cs k)) in
    let arrived =
      ap (λ c. c.sent) replied
      ∙ ap (λ l. l ++ (status_ok ∷ [])) (y.delivered ∙ ap₂ (λ l r. l ++ r) told last)
      ∙ in_a_row (w.clients k).sent before handed (deliver jsondata bindata) status_ok in
    let emptied = ap (λ c. contents 0 c.queue) replied ∙ y.left_over ∙ drop_all size_max q few in
    (w₁, sent_to k status_ok after, sent, synced, (before ++ handed, arrived), emptied)
