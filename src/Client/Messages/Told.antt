-- ===== src/Client/Messages/Told.antt =====
-- The text of a message while it is queued, and the last reply of `dime_client_sync`.
use dime.Base.{
  ℕ, ◌≡◌, ap, ap₂, subst, sym, ◌∙◌, Option, none, some, List, [], ◌∷◌, ◌++◌, ◌==◌, Bool-cases, inl,
  inr, ℕ_discrete,
}
use dime.World.{Message, Reply, deliver, update}
use dime.Client.Messages.{kept, dec_refs}
use dime.Client.Messages.Queue.{update_same, update_other}
use dime.Client.Messages.Sync.{Deliveries}

-- The message, while it is there, has this text and this binary part.
unfoldable pub HasText : List ℕ → List ℕ → Option Message → Type 0
HasText jsondata bindata none = Unit {0}
HasText jsondata bindata (some m) = (m.jsondata ≡ jsondata) × (m.bindata ≡ bindata)

kept-HasText :
    (jsondata bindata : List ℕ) (m : Message)
    → HasText jsondata bindata (some m)
    → HasText jsondata bindata (kept (dec_refs m))
unfolding HasText kept dec_refs
kept-HasText jsondata bindata m text = elim (Bool-cases ((dec_refs m).refs == 0)) [
  | inl unused ↦ rw unused tt
  | inr used ↦ rw used text
]

update-HasText :
    (jsondata bindata : List ℕ) (ms : ℕ → Option Message) (id k : ℕ) (m : Message)
    → ms k ≡ some m
    → HasText jsondata bindata (ms id)
    → HasText jsondata bindata (update ms k (kept (dec_refs m)) id)
update-HasText jsondata bindata ms id k m here text = elim (ℕ_discrete id k) [
  | yes same ↦
      subst (λ i. HasText jsondata bindata (update ms k (kept (dec_refs m)) i)) (sym same)
        (subst (HasText jsondata bindata) (sym (update_same ms k (kept (dec_refs m)))) (
          kept-HasText jsondata bindata m
            (subst (HasText jsondata bindata) (ap ms same ∙ here) text)))
  | no other ↦
      subst (HasText jsondata bindata) (sym (update_other ms k (kept (dec_refs m)) id other)) text
]

pub last-Deliveries :
    (ids : List ℕ) (id : ℕ) (ms : ℕ → Option Message) (replies : List Reply)
    (ms' : ℕ → Option Message) (jsondata bindata : List ℕ)
    → HasText jsondata bindata (ms id)
    → Deliveries (ids ++ (id ∷ [])) ms replies ms'
    → (earlier : List Reply) × (replies ≡ earlier ++ (deliver jsondata bindata ∷ []))
unfolding Deliveries HasText
last-Deliveries [] id ms replies ms' jsondata bindata text (m, here, later, e, (no_more, _)) =
    let (same_json, same_bin) = subst (HasText jsondata bindata) here text in
    ([], e ∙ ap₂ (λ r rs. r ∷ rs) (ap₂ deliver same_json same_bin) no_more)
last-Deliveries (k ∷ ids) id ms replies ms' jsondata bindata text (m, here, later, e, d) =
    let (earlier, e') =
      last-Deliveries ids id (update ms k (kept (dec_refs m))) later ms' jsondata bindata
        (update-HasText jsondata bindata ms id k m here text) d in
    (deliver m.jsondata m.bindata ∷ earlier, e ∙ ap (λ rs. deliver m.jsondata m.bindata ∷ rs) e')
