-- ===== src/Socket/Receiving.antt =====
-- server/socket.c: `dime_socket_pop`. The JSON library is a parameter.
use dime.Base.{
  ℕ, ◌+◌, ◌%◌, ◌^◌, Bool, true, false, not, ◌&&◌, Option, none, some, List, [], ◌∷◌, ltb, ◌==◌,
  if◌then◌else◌, slice,
}
use dime.Ring.{Ring}
use dime.Ring
use dime.Socket.Bytes.{from_be}
use dime.Socket.State.{Socket}
use dime.Socket.Sending.{magic}
use dime.Socket.Unframe.{unframe, again, done, error, fault}

-- `memcmp(a, b, n) == 0` on two blocks of `n` bytes
unfoldable pub same_bytes : List ℕ → List ℕ → Bool
same_bytes [] [] = true
same_bytes (a ∷ as') (b ∷ bs) = a == b && same_bytes as' bs
same_bytes _ _ = false

-- What `dime_socket_pop` returns: a message with its size, 0, -1, or an access outside a buffer.
pub data Popped (J : Type 0) : Type 0 where
  message : ℕ → J → List ℕ → Socket → Popped J
  nothing : Socket → Popped J
  failed : Socket → Popped J
  overrun : Popped J

-- What `json_loadb` does that is told of a number of bytes, which may be more than there are: it reads a
-- value, it refuses what it sees, or it reads past the end of what there is.
pub data Loaded (J : Type 0) : Type 0 where
  loaded : J → Loaded J
  refused past_end : Loaded J

module _ {J : Type 0} (json_loadb : List ℕ → ℕ → Loaded J) where
  -- The message whose header gives these lengths. Their sum is 32 bits wide, so that the buffer may have
  -- fewer bytes than the text and `json_loadb` is told of more than there are. Allocation 0 is `buf`,
  -- allocation 1 `bindata_p`.
  unfoldable pub pop_body : (ℕ → Bool) → Socket → ℕ → ℕ → Popped J
  pop_body grants sock jsondata_len bindata_len =
      let msgsiz = (12 + jsondata_len + bindata_len) % 2 ^ 32 in
      let (got, buf) = Ring.peek sock.rbuf msgsiz in
      let (_, rest) = Ring.discard sock.rbuf msgsiz in
      if not (grants 0)
      then failed sock
      else if not (got == msgsiz)
      then nothing sock
      else (elim (json_loadb (slice buf 12 jsondata_len) jsondata_len) [
        | refused ↦ failed sock
        | past_end ↦ overrun
        | loaded jsondata ↦
            if not (grants 1)
            then failed sock
            else if ltb 0 bindata_len && ltb msgsiz (12 + jsondata_len + bindata_len)
            then overrun
            else message msgsiz jsondata (slice buf (12 + jsondata_len) bindata_len)
                (record sock { rbuf = rest })
      ])

  -- The part of `dime_socket_pop` behind the WebSocket frames.
  unfoldable pub pop_message : (ℕ → Bool) → Socket → Popped J
  pop_message grants sock =
      let (nread, hdr) = Ring.peek sock.rbuf 12 in
      if nread == 12
      then (if same_bytes (slice hdr 0 4) magic
          then pop_body grants sock (from_be (slice hdr 4 4)) (from_be (slice hdr 8 4))
          else failed sock)
      else nothing sock

  -- `dime_socket_pop`; `none` is out of fuel in the loop over frames, whose allocations are numbered
  -- apart from those of the message.
  unfoldable pub pop : ℕ → (ℕ → Bool) → (ℕ → Bool) → ℕ → Socket → Option (Popped J)
  pop fuel ws_grants grants junk sock =
      if sock.ws_enabled
      then (elim (unframe fuel ws_grants junk sock) [
        | none ↦ none
        | some (again sock') ↦ none
        | some (done sock') ↦ some (pop_message grants sock')
        | some (error sock') ↦ some (failed sock')
        | some fault ↦ some overrun
      ])
      else some (pop_message grants sock)
