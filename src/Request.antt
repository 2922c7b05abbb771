-- ===== src/Request.antt =====
-- How server/server.c calls the handler that a request's "command" names, and the loop over the
-- requests that a client's socket holds.
pub mod Serve
use dime.Base.{ℕ, Bool, Option, List, [], ◌∷◌}
use dime.World.{World, Outcome, ok, failed, aborted, M, pure, ◌>>◌, fail, unknown_command}
use dime.Client.Groups.{join, leave}
use dime.Client.Messages.{JsonInt, send, broadcast, sync, wait}
use dime.Client.Session.{Named, TlsResult, handshake, devices}

-- A request: its "command", with what the handler's `json_unpack` finds in it, and for a handshake how
-- `dime_socket_init_tls` ends if it is called. One with no "command"
-- is taken for one with an unknown command.
pub data Request : Type 0 where
  handshake_request : Option (Named × Bool) → TlsResult → Request
  join_request : Option (List (Option ℕ)) → Request
  leave_request : Option (List (Option ℕ)) → Request
  send_request : Option ℕ → List ℕ → List ℕ → Request
  broadcast_request : List ℕ → List ℕ → Request
  sync_request : Option JsonInt → Request
  wait_request : Request
  devices_request : Request
  other_request : Request

unfoldable pub dispatch : ℕ → Request → M (Unit {0})
dispatch fd (handshake_request args result) = handshake fd args result
dispatch fd (join_request names) = join fd names
dispatch fd (leave_request names) = leave fd names
dispatch fd (send_request name jsondata bindata) = send fd name jsondata bindata
dispatch fd (broadcast_request jsondata bindata) = broadcast fd jsondata bindata
dispatch fd (sync_request n) = sync fd n
dispatch fd wait_request = wait fd
dispatch fd devices_request = devices fd
dispatch fd other_request = fail fd unknown_command

settled : Outcome (Unit {0}) × World → Outcome (Unit {0}) × World
settled (ok a, w) = (ok tt, w)
settled (failed, w) = (ok tt, w)
settled (aborted, w) = (aborted, w)

-- That a handler returned -1 is noted in the log only.
pub handle : ℕ → Request → M (Unit {0})
handle fd request w = settled (dispatch fd request w)

-- The requests that are popped in one round, in their order.
unfoldable pub serve : ℕ → List Request → M (Unit {0})
serve fd [] = pure tt
serve fd (request ∷ requests) = handle fd request >> serve fd requests
