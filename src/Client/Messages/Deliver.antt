-- ===== src/Client/Messages/Deliver.antt =====
-- What `dime_client_send` does to its receivers, where memory is granted.
use dime.Base.{
  ℕ, suc, ◌+◌, ◌%◌, ◌<◌, ◌^◌, ◌≡◌, ◌≢◌, refl, ap, subst, sym, ◌∙◌, true, false, Option, some, List,
  [], ◌∷◌, arith, ◌==◌, length, Bool-cases, inl, inr, ℕ_discrete,
}
use dime.World.{World, Message, ok, pure, ◌>>=◌, ◌>>◌, update, elem, status_ok}
use dime.World.Granted.{sent_to, require-alloc, require-push}
use dime.Client.Groups.{get_group, is_known}
use dime.Client.Messages.{
  get_message, checked, new_message, deliver_all, assert_referenced, send_group, send,
}
use dime.Client.Messages.Queue.{Ready, Received, Served, deliver_one-Served, update_same}

-- The world with a new message.
abbrev pub stored : Message → World → World
stored m w = record w {
  messages = update w.messages w.next_message (some m);
  next_message = w.next_message + 1;
}

-- No client stands in the list twice.
pub data Distinct : List ℕ → Type 0 where
  dnil : Distinct []
  dcons : {k : ℕ} → {ks : List ℕ} → elem k ks ≡ false → Distinct ks → Distinct (k ∷ ks)

add_mod : (a b : ℕ) → ((a + 1) % 2 ^ 32 + b) % 2 ^ 32 ≡ (a + suc b) % 2 ^ 32
add_mod a b = omega arith

mod_small : (a : ℕ) → a < 2 ^ 32 → (a + 0) % 2 ^ 32 ≡ a
mod_small a p = omega arith

-- A list's head is none of the names behind it.
one_or_later :
    (i k : ℕ) (ks : List ℕ) → elem k ks ≡ false → elem i ks ≡ true → elem i (k ∷ []) ≡ false
one_or_later i k ks new later = elim (ℕ_discrete i k) [
  | yes e ↦ cc (new, later, e)
  | no n ↦ ground arith
]

module _ (sender id : ℕ) where
  nil-Served :
      (w : World) (m : Message) → w.messages id ≡ some m → m.refs < 2 ^ 32 → Served id [] m w w
  nil-Served w m here small = record {
    told_all = λ k e. ground arith;
    others_same = λ k e. refl;
    counted = rw (mod_small (m.refs) small) here;
    other_messages = λ k n. refl;
    rest = refl;
  }

  cons-Served :
      (k : ℕ) (ks : List ℕ) (m : Message) (w w₁ w₂ : World)
      → elem k ks ≡ false
      → Served id (k ∷ []) m w w₁
      → Served id ks (record m { refs = (m.refs + 1) % 2 ^ 32 }) w₁ w₂
      → Served id (k ∷ ks) m w w₂
  cons-Served k ks m w w₁ w₂ new s₁ s₂ = record {
    told_all = λ i e. elim (Bool-cases (elem i ks)) [
      | inl later ↦
          let first : elem i (k ∷ []) ≡ false = one_or_later i k ks new later in
          subst (λ c. Received id c (w₂.clients i)) (s₁.others_same i first) (s₂.told_all i later)
      | inr gone ↦
          let first : elem i (k ∷ []) ≡ true = ground arith in
          subst (Received id (w.clients i)) (sym (s₂.others_same i gone)) (s₁.told_all i first)
    ];
    others_same = λ i e.
        let later : elem i ks ≡ false = ground arith in
        let first : elem i (k ∷ []) ≡ false = ground arith in
        s₂.others_same i later ∙ s₁.others_same i first;
    counted =
        s₂.counted
        ∙ ap {A = ℕ} {B = Option Message} (λ n. some (record m { refs = n }))
            (add_mod m.refs (length ks));
    other_messages = λ i n. s₂.other_messages i n ∙ s₁.other_messages i n;
    rest =
        s₂.rest
        ∙ ap {A = World} {B = World}
            (λ v. record v { clients = w₂.clients; messages = w₂.messages }) s₁.rest;
  }

  pub deliver_all-Served :
      (fds : List ℕ) (w : World) (m : Message)
      → w.grants ≡ []
      → Distinct fds
      → ((k : ℕ) → elem k fds ≡ true → Ready (w.clients k))
      → w.messages id ≡ some m
      → m.refs < 2 ^ 32
      → (w' : World) × (deliver_all sender id fds w ≡ (ok tt, w')) × Served id fds m w w'
  unfolding deliver_all ◌>>=◌ ◌>>◌ pure
  deliver_all-Served [] w m g d ready here small = (w, refl, nil-Served w m here small)
  deliver_all-Served (k ∷ ks) w m g (dcons new d) ready here small =
      let (w₁, first, s₁) = deliver_one-Served w g id m here sender k (ready k ground arith) in
      let ready₁ : (i : ℕ) → elem i ks ≡ true → Ready (w₁.clients i) = λ i e.
        subst Ready (sym (s₁.others_same i (one_or_later i k ks new e))) (ready i (ground arith)) in
      let (w₂, later, s₂) =
        deliver_all-Served ks w₁ (record m { refs = (m.refs + 1) % 2 ^ 32 })
          (ap (λ v. v.grants) s₁.rest ∙ g) d ready₁ s₁.counted (omega arith) in
      (w₂, rw (first, later) refl, cons-Served k ks m w w₁ w₂ new s₁ s₂)

-- What `dime_client_send` leaves: each member has the message behind what it had, the message
-- counts one reference for each, and the sender has its reply behind all that.
pub record Sent (fd : ℕ) (receivers : List ℕ) (m : Message) (w w' : World) : Type 0 where
  pub served_world : World
  pub served : Served w.next_message receivers m (stored m w) served_world
  pub replied : w' ≡ sent_to fd status_ok served_world

referenced :
    (w : World) (id : ℕ) (m : Message)
    → w.messages id ≡ some m
    → m.refs ≢ 0
    → assert_referenced id w ≡ (ok tt, w)
unfolding assert_referenced get_message checked ◌>>=◌ pure
referenced w id m here counted =
    let some_ref : (m.refs == 0) ≡ false = ground arith in rw (here, some_ref)

send_group-granted :
    (w w₁ : World) (fd : ℕ) (fds jsondata bindata : List ℕ) (m : Message)
    → w.grants ≡ []
    → let new : Message = record { refs = 0; jsondata = jsondata; bindata = bindata } in
      deliver_all fd w.next_message fds (stored new w) ≡ (ok tt, w₁)
      → w₁.grants ≡ []
      → w₁.messages w.next_message ≡ some m
      → m.refs ≢ 0
      → send_group fd fds jsondata bindata w ≡ (ok tt, sent_to fd status_ok w₁)
unfolding send_group new_message ◌>>=◌ ◌>>◌ pure
send_group-granted w w₁ fd fds jsondata bindata m g delivered g₁ here counted = rw (
  require-alloc w g fd,
  require-alloc w g fd,
  delivered,
  referenced w₁ w.next_message m here counted,
  require-push w₁ g₁ fd fd status_ok,
)

-- Where memory is granted, a request to send to a group that is known, has members and lists none of
-- them twice ends well, if each member's queue is well formed and can still grow and there are less
-- than 2 ^ 32 members. Each member then has the new message behind what it had queued, and was told
-- how much is queued if it waited; the message counts one reference for each member; the sender gets
-- its reply; and nothing else changes.
pub send-Sent :
    (w : World) (fd name : ℕ) (jsondata bindata : List ℕ)
    → w.grants ≡ []
    → elem name w.names ≡ true
    → 0 < length (w.groups name).clnts
    → length (w.groups name).clnts < 2 ^ 32
    → Distinct (w.groups name).clnts
    → ((k : ℕ) → elem k (w.groups name).clnts ≡ true → Ready (w.clients k))
    → (w' : World) × (send fd (some name) jsondata bindata w ≡ (ok tt, w'))
      × Sent fd
          (w.groups name).clnts
          (record { refs = 0; jsondata = jsondata; bindata = bindata })
          w
          w'
unfolding send is_known get_group ◌>>=◌ ◌>>◌ pure
send-Sent w fd name jsondata bindata g known occupied small d ready =
    let m : Message = record { refs = 0; jsondata = jsondata; bindata = bindata } in
    let (w₁, delivered, s) =
      deliver_all-Served fd w.next_message (w.groups name).clnts (stored m w) m g d ready
        (update_same w.messages w.next_message (some m)) (omega arith) in
    let some_members : (length (w.groups name).clnts == 0) ≡ false = ground arith in
    let counted : (0 + length (w.groups name).clnts) % 2 ^ 32 ≢ 0 = ground arith in
    let grants_left : w₁.grants ≡ [] = ap (λ v. v.grants) s.rest ∙ g in
    (
      sent_to fd status_ok w₁,
      rw (known, some_members)
          (send_group-granted w w₁ fd (w.groups name).clnts jsondata bindata _ g delivered
            grants_left s.counted counted),
      record { served_world = w₁; served = s; replied = refl },
    )
