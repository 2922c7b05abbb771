-- ===== src/World/Granted.antt =====
-- The steps of `World` where memory is granted.
use dime.Base.{ℕ, ◌≡◌, true, some, [], arith}
use dime.World.{
  World, Error, Reply, ok, failed, pure, ◌>>=◌, ◌>>◌, update, alloc, modify_client, add_sent, push,
  set_err, stop, fail, require, status_error,
}

-- The world with one more reply for `fd`.
abbrev pub sent_to : ℕ → Reply → World → World
sent_to fd r w = record w { clients = update w.clients fd (add_sent r (w.clients fd)) }

module _ (w : World) (g : w.grants ≡ []) where
  pub alloc_granted : alloc w ≡ (ok true, w)
  unfolding alloc
  alloc_granted = ground arith

  pub push_granted : (fd : ℕ) (r : Reply) → push fd r w ≡ (ok true, sent_to fd r w)
  unfolding push modify_client pure ◌>>=◌ ◌>>◌
  push_granted fd r = rw alloc_granted

  pub require-alloc : (fd : ℕ) → require fd alloc w ≡ (ok tt, w)
  unfolding require ◌>>=◌ pure
  require-alloc fd = rw alloc_granted

  pub require-push : (fd k : ℕ) (r : Reply) → require fd (push k r) w ≡ (ok tt, sent_to k r w)
  unfolding require ◌>>=◌ pure
  require-push fd k r = rw (push_granted k r)

pub fail_granted :
    {A : Type 0} (w : World) (fd : ℕ) (e : Error)
    → w.grants ≡ []
    → fail {A = A} fd e w ≡ (failed, sent_to fd (status_error e) (record w { err = some e }))
unfolding fail set_err stop ◌>>=◌ ◌>>◌ pure
fail_granted w fd e g = rw (
  alloc_granted (record w { err = some e }) g,
  push_granted (record w { err = some e }) g fd (status_error e),
)
