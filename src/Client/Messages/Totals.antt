-- ===== src/Client/Messages/Totals.antt =====
-- How often a message stands in the queues of some clients, and how often it is counted.
use dime.Base.{
  ℕ, suc, ◌+◌, ◌≤◌, ◌<◌, ◌^◌, ◌≡◌, ◌≢◌, refl, ap, subst, sym, true, false, Option, none, some, List,
  [], ◌∷◌, ◌++◌, arith, ◌==◌, if◌then◌else◌, length, Bool-cases, inl, inr, ℕ_discrete,
}
use dime.Deque.Valid.{contents}
use dime.World.{Client, Message, Reply, update, elem, deliver}
use dime.Client.Groups.Counts.{count, count-append, elem-true, count_zero-elem}
use dime.Client.Messages.{kept, dec_refs}
use dime.Client.Messages.Queue.{update_same, update_other}
use dime.Client.Messages.Deliver.{Distinct, dnil, dcons}
use dime.Client.Messages.Sync.{Deliveries}

-- The places of a message in the queues of the clients in `fds`.
unfoldable pub places : (ℕ → Client) → List ℕ → ℕ → ℕ
places cs [] id = 0
places cs (k ∷ ks) id = count id (contents 0 (cs k).queue) + places cs ks id

pub places_same :
    (cs cs' : ℕ → Client) (fds : List ℕ) (id : ℕ)
    → ((k : ℕ) → (cs' k).queue ≡ (cs k).queue)
    → places cs' fds id ≡ places cs fds id
unfolding places
places_same cs cs' [] id h = refl
places_same cs cs' (k ∷ ks) id h =
    omega (arith, ap (λ q. count id (contents 0 q)) (h k), places_same cs cs' ks id h)

pub places_of :
    (cs : ℕ → Client) (fd : ℕ) (fds : List ℕ) (id : ℕ)
    → elem fd fds ≡ true
    → count id (contents 0 (cs fd).queue) ≤ places cs fds id
unfolding places
places_of cs fd [] id h = cc
places_of cs fd (k ∷ ks) id h = elim (ℕ_discrete k fd) [
  | yes here ↦ omega (arith, ap (λ i. count id (contents 0 (cs i).queue)) here)
  | no away ↦ omega (arith, places_of cs fd ks id (ground arith))
]

-- A client that is not among them.
pub places_absent :
    (cs : ℕ → Client) (fd : ℕ) (c : Client) (fds : List ℕ) (id : ℕ)
    → elem fd fds ≡ false
    → places (update cs fd c) fds id ≡ places cs fds id
unfolding places
places_absent cs fd c [] id out = refl
places_absent cs fd c (k ∷ ks) id out = elim (ℕ_discrete k fd) [
  | yes here ↦ absurd (ground (arith, here, out))
  | no away ↦ omega (
    arith,
    ap (λ c. count id (contents 0 c.queue)) (update_other cs fd c k away),
    places_absent cs fd c ks id (ground (arith, out)),
  )
]

pub places-append :
    (cs : ℕ → Client) (fds fds' : List ℕ) (id : ℕ)
    → places cs (fds ++ fds') id ≡ places cs fds id + places cs fds' id
unfolding places
places-append cs [] fds' id = omega arith
places-append cs (k ∷ ks) fds' id = omega (arith, places-append cs ks fds' id)

-- How many of the first list stand in the second.
pub members : List ℕ → List ℕ → ℕ
members [] ys = 0
members (x ∷ xs) ys = (if elem x ys then 1 else 0) + members xs ys

members-nil : (xs : List ℕ) → members xs [] ≡ 0
unfolding members
members-nil [] = refl
members-nil (x ∷ xs) = omega (arith, members-nil xs)

members-cons :
    (xs : List ℕ) (y : ℕ) (ys : List ℕ) → members xs (y ∷ ys) ≤ count y xs + members xs ys
unfolding members
members-cons [] y ys = omega arith
members-cons (x ∷ xs) y ys = ground (arith, members-cons xs y ys)

-- A list that has no entry twice has no more entries in another than that has entries.
pub members_few : (xs ys : List ℕ) → ((y : ℕ) → count y xs ≤ 1) → members xs ys ≤ length ys
members_few xs [] once = omega (arith, members-nil xs)
members_few xs (y ∷ ys) once = omega (arith, members-cons xs y ys, once y, members_few xs ys once)

members_all :
    (xs ys : List ℕ) → ((x : ℕ) → elem x xs ≡ true → elem x ys ≡ true) → members xs ys ≡ length xs
unfolding members
members_all [] ys h = refl
members_all (x ∷ xs) ys h =
    let here : elem x ys ≡ true = h x (ground arith) in
    ground (arith, here, members_all xs ys (λ z e. h z (ground arith)))

-- So it is no longer than a list that has all its entries.
pub length_within :
    (xs ys : List ℕ)
    → ((y : ℕ) → count y xs ≤ 1)
    → ((x : ℕ) → elem x xs ≡ true → elem x ys ≡ true)
    → length xs ≤ length ys
length_within xs ys once h = omega (arith, members_all xs ys h, members_few xs ys once)

pub count-Distinct : (xs : List ℕ) → ((x : ℕ) → count x xs ≤ 1) → Distinct xs
count-Distinct [] once = dnil
count-Distinct (x ∷ xs) once =
    dcons (ground (arith, once x, elem-true x xs)) (count-Distinct xs (λ y. omega (arith, once y)))

-- One more entry for each receiver.
pub places_sent :
    (cs cs' : ℕ → Client) (receivers fds : List ℕ) (id j : ℕ)
    → ((k : ℕ)
        → contents 0 (cs' k).queue
          ≡ contents 0 (cs k).queue ++ (if elem k receivers then id ∷ [] else []))
    → places cs' fds j ≡ places cs fds j + (if id == j then members fds receivers else 0)
unfolding places members
places_sent cs cs' receivers [] id j h = ground arith
places_sent cs cs' receivers (k ∷ ks) id j h = ground (
  arith,
  ap (count j) (h k),
  count-append j (contents 0 (cs k).queue) (if elem k receivers then id ∷ [] else []),
  places_sent cs cs' receivers ks id j h,
)

-- Entries that one client has lost.
pub places_lost :
    (cs cs' : ℕ → Client) (fd : ℕ) (fds : List ℕ) (j d : ℕ)
    → ((k : ℕ) → k ≢ fd → cs' k ≡ cs k)
    → count j (contents 0 (cs fd).queue) ≡ d + count j (contents 0 (cs' fd).queue)
    → count fd fds ≤ 1
    → places cs' fds j + (if elem fd fds then d else 0) ≡ places cs fds j
unfolding places
places_lost cs cs' fd [] j d same lost once = omega arith
places_lost cs cs' fd (k ∷ ks) j d same lost once = elim (ℕ_discrete k fd) [
  | yes here ↦
      let later : count fd ks ≡ 0 = ground (arith, here) in
      ground (
        arith,
        lost,
        ap (λ i. count j (contents 0 (cs i).queue)) here,
        ap (λ i. count j (contents 0 (cs' i).queue)) here,
        count_zero-elem fd ks later,
        places_lost cs cs' fd ks j d same lost (omega (arith, later)),
      )
  | no away ↦ ground (
    arith,
    ap (λ c. count j (contents 0 c.queue)) (same k away),
    places_lost cs cs' fd ks j d same lost (ground (arith, once)),
  )
]

-- What a message counts is enough for `n` places, and one that is not there needs none.
unfoldable pub Covered : Option Message → ℕ → Type 0
Covered none n = n ≡ 0
Covered (some m) n = (n ≤ m.refs) × (m.refs < 2 ^ 32)

pub Covered-present :
    (o : Option Message) (n : ℕ) → Covered o (suc n) → (m : Message) × (o ≡ some m)
unfolding Covered
Covered-present none n c = absurd (omega arith)
Covered-present (some m) n c = (m, refl)

unused-Covered : (m : Message) (n : ℕ) → n ≤ m.refs → m.refs < 2 ^ 32 → Covered (kept m) n
unfolding Covered kept
unused-Covered m n enough small = elim (Bool-cases (m.refs == 0)) [
  | inl unused ↦ rw unused (ground arith)
  | inr used ↦ rw used (enough, small)
]

-- One place less for one count less.
dropped-Covered : (m : Message) (n : ℕ) → Covered (some m) (suc n) → Covered (kept (dec_refs m)) n
unfolding Covered dec_refs
dropped-Covered m n (enough, small) = unused-Covered (dec_refs m) n (omega arith) (omega arith)

-- What is left when a message has been handed over.
pub handed-Covered :
    (id : ℕ) (ids : List ℕ) (ms : ℕ → Option Message) (elsewhere : ℕ → ℕ) (m : Message)
    → ms id ≡ some m
    → ((k : ℕ) → Covered (ms k) (count k (id ∷ ids) + elsewhere k))
    → (k : ℕ) → Covered (update ms id (kept (dec_refs m)) k) (count k ids + elsewhere k)
handed-Covered id ids ms elsewhere m at c k = elim (ℕ_discrete k id) [
  | yes here ↦
      let more : count id (id ∷ ids) + elsewhere id ≡ suc (count id ids + elsewhere id) =
        ground arith in
      subst (λ i. Covered (update ms id (kept (dec_refs m)) i) (count i ids + elsewhere i))
        (sym here)
        (subst (λ o. Covered o (count id ids + elsewhere id))
          (sym (update_same ms id (kept (dec_refs m))))
          (dropped-Covered m (count id ids + elsewhere id) (
            subst (λ o. Covered o (suc (count id ids + elsewhere id))) at
              (subst (Covered (ms id)) more (c id)))))
  | no away ↦
      let same : count k (id ∷ ids) + elsewhere k ≡ count k ids + elsewhere k = ground arith in
      subst (λ o. Covered o (count k ids + elsewhere k))
        (sym (update_other ms id (kept (dec_refs m)) k away)) (subst (Covered (ms k)) same (c k))
]

-- Messages that count enough for `ids` and for some places elsewhere can all be handed over, and then
-- still count enough for those elsewhere.
pub Covered-Deliveries :
    (ids : List ℕ) (ms : ℕ → Option Message) (elsewhere : ℕ → ℕ)
    → ((id : ℕ) → Covered (ms id) (count id ids + elsewhere id))
    → (replies : List Reply) × (ms' : ℕ → Option Message) × Deliveries ids ms replies ms'
      × ((id : ℕ) → Covered (ms' id) (elsewhere id))
unfolding Deliveries
Covered-Deliveries [] ms elsewhere c =
    ([], ms, (refl, refl), λ id. subst (Covered (ms id)) (omega arith) (c id))
Covered-Deliveries (id ∷ ids) ms elsewhere c =
    let n = count id ids + elsewhere id in
    let here : Covered (ms id) (suc n) = subst (Covered (ms id)) (ground arith) (c id) in
    let (m, at) = Covered-present (ms id) n here in
    let (replies, ms', d, left) =
      Covered-Deliveries ids (update ms id (kept (dec_refs m))) elsewhere
        (handed-Covered id ids ms elsewhere m at c) in
    (deliver m.jsondata m.bindata ∷ replies, ms', (m, at, replies, refl, d), left)
