-- ===== src/Client/Messages/Broadcast.antt =====
-- What `dime_client_broadcast` does to the other clients, where memory is granted.
use dime.Base.{
  ℕ, ◌+◌, ◌%◌, ◌<◌, ◌^◌, ◌≡◌, ◌≢◌, refl, ap, sym, ◌∙◌, true, false, Option, some, List, [], arith,
  ◌==◌, length, ℕ_discrete,
}
use dime.World.{World, Message, ok, ◌>>=◌, ◌>>◌, update, elem, status_ok}
use dime.World.Granted.{sent_to, require-alloc, require-push}
use dime.Client.Messages.{
  get_message, put_message, checked, kept, new_message, free_unused, deliver_all, others, get_fds,
  broadcast,
}
use dime.Client.Messages.Queue.{Ready, update_same}
use dime.Client.Messages.Deliver.{Distinct, Sent, stored, deliver_all-Served}

-- A message that has references is not freed.
free_unused-counted :
    (w : World) (id : ℕ) (m : Message)
    → w.messages id ≡ some m
    → m.refs ≢ 0
    → free_unused id w ≡ (ok tt, w)
unfolding free_unused get_message put_message checked kept ◌>>=◌
free_unused-counted w id m here counted =
    let some_ref : (m.refs == 0) ≡ false = ground arith in
    rw (here, some_ref)
      (λ i. (ok tt, record w { messages = λ k. put_back w.messages id (some m) here k i }))
  where
    put_back :
        (ms : ℕ → Option Message) (id : ℕ) (o : Option Message)
        → ms id ≡ o
        → (k : ℕ) → update ms id o k ≡ ms k
    put_back ms id o e k = elim (ℕ_discrete k id) [
      | yes same ↦ rw (same, update_same ms id o) (sym e)
      | no n ↦ ground arith
    ]

broadcast-granted :
    (w w₁ : World) (fd : ℕ) (jsondata bindata : List ℕ) (m : Message)
    → w.grants ≡ []
    → let new : Message = record { refs = 0; jsondata = jsondata; bindata = bindata } in
      deliver_all fd w.next_message (others fd w.fds) (stored new w) ≡ (ok tt, w₁)
      → w₁.grants ≡ []
      → w₁.messages w.next_message ≡ some m
      → m.refs ≢ 0
      → broadcast fd jsondata bindata w ≡ (ok tt, sent_to fd status_ok w₁)
unfolding broadcast new_message get_fds ◌>>=◌ ◌>>◌
broadcast-granted w w₁ fd jsondata bindata m g delivered g₁ here counted = rw (
  require-alloc w g fd,
  require-alloc w g fd,
  delivered,
  free_unused-counted w₁ w.next_message m here counted,
  require-push w₁ g₁ fd fd status_ok,
)

-- Where memory is granted, a broadcast ends well, if there is another client, less than 2 ^ 32 of
-- them, none listed twice in the table, and each one's queue is well formed and can still grow. Each
-- other client then has the new message behind what it had queued, and was told how much is queued if
-- it waited; the message counts one reference for each of them and is not freed; the sender gets its
-- reply; and nothing else changes.
pub broadcast-Sent :
    (w : World) (fd : ℕ) (jsondata bindata : List ℕ)
    → w.grants ≡ []
    → 0 < length (others fd w.fds)
    → length (others fd w.fds) < 2 ^ 32
    → Distinct (others fd w.fds)
    → ((k : ℕ) → elem k (others fd w.fds) ≡ true → Ready (w.clients k))
    → (w' : World) × (broadcast fd jsondata bindata w ≡ (ok tt, w'))
      × Sent fd (others fd w.fds) (record { refs = 0; jsondata = jsondata; bindata = bindata }) w w'
broadcast-Sent w fd jsondata bindata g occupied small d ready =
    let fds = others fd w.fds in
    let m : Message = record { refs = 0; jsondata = jsondata; bindata = bindata } in
    let (w₁, delivered, s) =
      deliver_all-Served fd w.next_message fds (stored m w) m g d ready
        (update_same w.messages w.next_message (some m)) (omega arith) in
    let counted : (0 + length fds) % 2 ^ 32 ≢ 0 = ground arith in
    let grants_left : w₁.grants ≡ [] = ap (λ v. v.grants) s.rest ∙ g in
    (
      sent_to fd status_ok w₁,
      broadcast-granted w w₁ fd jsondata bindata _ g delivered grants_left s.counted counted,
      record { served_world = w₁; served = s; replied = refl },
    )
