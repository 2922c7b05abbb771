-- ===== src/Client/Messages/Uncounted.antt =====
-- A receiver that waits and cannot be told: the message stays in its queue, uncounted.
use dime.Base.{
  ℕ, ◌*◌, ◌<◌, ◌^◌, ◌≡◌, refl, ap, ◌∙◌, Bool, true, false, some, List, [], ◌∷◌, ◌++◌, arith, leb,
  inl, inr,
}
use dime.Deque.{Deque}
use dime.Deque
use dime.Deque.Valid.{IsValid, contents}
use dime.Deque.Push.{pushr_lem}
use dime.World.{
  World, ok, failed, system, pure, ◌>>=◌, ◌>>◌, alloc, modify_client, require, fail, set_err, stop,
}
use dime.Client.Groups.{get_client}
use dime.Client.Messages.{set_queue, needs_room, put_queue, queue_right, notify, deliver_one}
use dime.Client.Messages.Queue.{with_client, update_same}

module _ (w : World) (fd : ℕ) where
  queue_right-room :
      (id : ℕ) (q : Deque ℕ)
      → leb (w.clients fd).queue.cap (w.clients fd).queue.len ≡ false
      → Deque.pushr 0 true 0 (w.clients fd).queue id ≡ some q
      → queue_right fd id w ≡ (ok true, with_client fd (set_queue q (w.clients fd)) w)
  unfolding queue_right needs_room put_queue get_client modify_client pure ◌>>=◌ ◌>>◌
  queue_right-room id q room pushed = rw (room, pushed) refl

  -- With no memory for the notice, nor for the reply.
  notify-short :
      (gs : List Bool)
      → w.grants ≡ false ∷ false ∷ gs
      → (w.clients fd).waiting ≡ true
      → notify fd w ≡ (failed, record w { err = some system; grants = gs })
  unfolding notify get_client require alloc fail set_err stop pure ◌>>=◌ ◌>>◌
  notify-short gs short waits = rw (waits, short) refl

-- Where a receiver waits and its queue has room, but there is no memory for the notice nor for the
-- error reply, the delivery fails and has queued the message all the same, while the
-- message counts no reference for it and the receiver waits on.
pub deliver_one_uncounted :
    (w : World) (sender id fd : ℕ) (gs : List Bool)
    → w.grants ≡ false ∷ false ∷ gs
    → (w.clients fd).waiting ≡ true
    → IsValid (w.clients fd).queue
    → 3 * (w.clients fd).queue.cap < 2 ^ 64
    → (w.clients fd).queue.len < (w.clients fd).queue.cap
    → (w' : World) × (deliver_one sender id fd w ≡ (failed, w'))
      × (contents 0 (w'.clients fd).queue ≡ contents 0 (w.clients fd).queue ++ (id ∷ []))
      × ((w'.clients fd).waiting ≡ true)
      × (w'.messages ≡ w.messages)
unfolding deliver_one set_queue ◌>>=◌ ◌>>◌
deliver_one_uncounted w sender id fd gs short waits v small room =
    elim (pushr_lem 0 true 0 (w.clients fd).queue id v small) [
      | inr (e, f, g) ↦ cc
      | inl (q, pushed, v', e, roomy) ↦
          let c = set_queue q (w.clients fd) in
          let w₁ = with_client fd c w in
          let here : w₁.clients fd ≡ c = update_same w.clients fd c in
          let free : leb (w.clients fd).queue.cap (w.clients fd).queue.len ≡ false = ground arith in
          (
            record w₁ { err = some system; grants = gs },
            rw
                (
                  queue_right-room w fd id q free pushed,
                  notify-short w₁ fd gs short (ap (λ c. c.waiting) here ∙ waits),
                )
                refl,
            ap (λ c. contents 0 c.queue) here ∙ e,
            ap (λ c. c.waiting) here ∙ waits,
            refl,
          )
    ]
