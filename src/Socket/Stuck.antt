-- ===== src/Socket/Stuck.antt =====
-- The loop of `ev_client_readable` over `dime_socket_pop`, which goes on where that returns -1.
use dime.Base.{
  ℕ, zero, suc, ◌≤◌, ◌≡◌, refl, ap, ◌∙◌, true, false, none, some, List, [], ◌∷◌, length,
}
use dime.Ring.Valid.{IsValid, contents}
use dime.Socket.State.{Socket}
use dime.Socket.Sending.{magic}
use dime.Socket.Receiving.{Loaded, same_bytes, message, nothing, failed, overrun, pop}
use dime.Socket.Pop.{pop-plain, pop_message-no_magic}
use dime.Socket.Stream.{Drained, drained, unfinished, overran, and_handled}

module _ {J : Type 0} (json_loadb : List ℕ → ℕ → Loaded J) where
  -- The loop, for at most `fuel` rounds.
  pub ev_drain : ℕ → Socket → Drained J
  ev_drain zero sock = unfinished
  ev_drain (suc fuel) sock = elim (pop json_loadb (suc fuel) (λ i. true) (λ i. true) 0 sock) [
    | none ↦ unfinished
    | some (nothing sock') ↦ drained [] sock'
    | some (failed sock') ↦ ev_drain fuel sock'
    | some overrun ↦ overran
    | some (message n x bindata sock') ↦ and_handled (x, bindata) (ev_drain fuel sock')
  ]

  -- Where a plain connection's valid incoming ring holds twelve bytes or more that do not begin with
  -- "DiME", the loop of `ev_client_readable` is not at its end after any number of rounds.
  pub ev_drain_stuck :
      (fuel : ℕ) (sock : Socket) (a b c d : ℕ) (rest : List ℕ)
      → sock.ws_enabled ≡ false
      → IsValid sock.rbuf
      → contents sock.rbuf ≡ a ∷ b ∷ c ∷ d ∷ rest
      → 8 ≤ length rest
      → same_bytes (a ∷ b ∷ c ∷ d ∷ []) magic ≡ false
      → ev_drain fuel sock ≡ unfinished
  unfolding ev_drain
  ev_drain_stuck zero sock a b c d rest off v e long bad = refl
  ev_drain_stuck (suc fuel) sock a b c d rest off v e long bad =
      rw
        (
          pop-plain json_loadb (suc fuel) (λ i. true) (λ i. true) 0 sock off
              ∙ ap some (pop_message-no_magic json_loadb sock a b c d rest v e long bad),
          ev_drain,
        )
        (ev_drain_stuck fuel sock a b c d rest off v e long bad)
