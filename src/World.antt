-- ===== src/World.antt =====
-- The state that the handlers of server/client.c share: the clients, the groups and the pending
-- messages of one server, and the steps that every handler is made of. A pointer to a client is its
-- descriptor, one to a group its name, one to a message an address. Names are only compared, so a
-- name is any number. What goes into a client's socket is kept as a list of replies: the bytes are
-- the business of `Socket`.
pub mod Logic
pub mod Links
pub mod After
pub mod Gives
pub mod Granted
pub mod Yields
use dime.Base.{
  ℕ, ◌+◌, Bool, true, false, Option, none, some, List, [], ◌∷◌, ◌++◌, ◌||◌, ◌==◌, if◌then◌else◌,
  leb, length,
}
use dime.Deque.{Deque}

-- `enum dime_serialization`
pub data Serialization : Type 0 where
  no_serialization matlab pickle dimeb json : Serialization

-- What `srv->err` and the "error" field of a reply say.
pub data Error : Type 0 where
  json_parsing : Error
  expected_string : Error
  already_in_group : ℕ → Error
  not_in_group : ℕ → Error
  no_such_group : ℕ → Error
  system : Error
  unknown_command : Error

-- The JSON objects that the server writes, and the messages that it passes on.
pub data Reply : Type 0 where
  status_ok : Reply
  status_error : Error → Reply
  pending : ℕ → Reply
  devices_reply : List ℕ → Reply
  handshake_reply : Serialization → Bool → Reply
  reregister : Reply
  deliver : List ℕ → List ℕ → Reply

-- `dime_rcmessage_t`
pub record Message : Type 0 where
  pub refs : ℕ
  pub jsondata : List ℕ
  pub bindata : List ℕ

-- `dime_group_t`, its array of clients up to `clnts_len`
pub record Group : Type 0 where
  pub clnts : List ℕ
  pub clnts_cap : ℕ

-- `struct __dime_client`
pub record Client : Type 0 where
  pub waiting : Bool
  pub groups : List ℕ
  pub groups_cap : ℕ
  pub sent : List Reply
  pub queue : Deque ℕ

-- `dime_server_t`, with the structures behind its pointers. `fds` and `names` list the keys of
-- `fd2clnt` and `name2clnt` in the order of iteration. `grants` says whether the next calls that
-- need memory succeed; those beyond it do.
pub record World : Type 0 where
  pub clients : ℕ → Client
  pub fds : List ℕ
  pub groups : ℕ → Group
  pub names : List ℕ
  pub messages : ℕ → Option Message
  pub next_message : ℕ
  pub serialization : Serialization
  pub has_tls : Bool
  pub err : Option Error
  pub grants : List Bool

-- How a handler ends: with 0, with -1, or at a failed assertion or an access to freed memory.
pub data Outcome {ℓ} (A : Type ℓ) : Type ℓ where
  ok : A → Outcome A
  failed : Outcome A
  aborted : Outcome A

abbrev pub M : Type 0 → Type 0
M A = World → Outcome A × World

unfoldable pub pure : {A : Type 0} → A → M A
pure a w = (ok a, w)

-- What follows a step that ended well.
abbrev pub carry_on : {A B : Type 0} → (A → M B) → Outcome A × World → Outcome B × World
carry_on f (ok a, w) = f a w
carry_on f (failed, w) = (failed, w)
carry_on f (aborted, w) = (aborted, w)

infixl 5 ◌>>=◌ ◌>>◌
unfoldable pub ◌>>=◌ : {A B : Type 0} → M A → (A → M B) → M B
◌>>=◌ m f w = carry_on f (m w)

unfoldable pub ◌>>◌ : {A B : Type 0} → M A → M B → M B
m >> k = m >>= λ _. k

-- One key of a store changed.
abbrev pub update {ℓ} : {A : Type ℓ} → (ℕ → A) → ℕ → A → ℕ → A
update f k a j = if j == k then a else f j

abbrev pub elem : ℕ → List ℕ → Bool
elem x [] = false
elem x (y ∷ ys) = y == x || elem x ys

-- `malloc` and whatever else fails for want of memory
abbrev pub take_grant : List Bool → Bool × List Bool
take_grant [] = (true, [])
take_grant (b ∷ bs) = (b, bs)

unfoldable pub alloc : M Bool
alloc w = let (b, bs) = take_grant w.grants in (ok b, record w { grants = bs })

unfoldable pub modify_client : ℕ → (Client → Client) → M (Unit {0})
modify_client fd f w = (ok tt, record w { clients = update w.clients fd (f (w.clients fd)) })

unfoldable pub modify_group : ℕ → (Group → Group) → M (Unit {0})
modify_group name f w = (ok tt, record w { groups = update w.groups name (f (w.groups name)) })

unfoldable pub add_sent : Reply → Client → Client
add_sent reply c = record c { sent = c.sent ++ (reply ∷ []) }

-- `dime_socket_push` or `dime_socket_push_str`, on the socket of `fd`: whether it succeeds.
unfoldable pub push : ℕ → Reply → M Bool
push fd reply = do
  granted ← alloc
  if granted then modify_client fd (add_sent reply) >> pure true else pure false

unfoldable pub set_err : Error → M (Unit {0})
set_err e w = (ok tt, record w { err = some e })

unfoldable pub stop : {A : Type 0} → M A
stop w = (failed, w)

unfoldable pub abort : {A : Type 0} → M A
abort w = (aborted, w)

-- The error path of every handler: note the error, tell the client at `fd` if there is memory for
-- it, and return -1.
unfoldable pub fail : {A : Type 0} → ℕ → Error → M A
fail fd e = do
  set_err e
  packed ← alloc
  _ ← (if packed then push fd (status_error e) else pure false)
  stop

-- A step that must succeed, or the handler tells the client at `fd` that memory is short.
unfoldable pub require : ℕ → M Bool → M (Unit {0})
require fd m = do done ← m; if done then pure tt else fail fd system
