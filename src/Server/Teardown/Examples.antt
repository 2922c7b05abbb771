-- ===== src/Server/Teardown/Examples.antt =====
-- The end of a server with two clients in one group.
use dime.Server.Teardown.Emptied.{Emptied}
