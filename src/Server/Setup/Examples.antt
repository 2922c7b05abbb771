-- ===== src/Server/Setup/Examples.antt =====
-- A server that begins to listen.
use dime.Base.{refl, true, false, some, [], arith}
use dime.Server.Setup.{Listening, AddCalls, tcp_at, add}
use dime.Server.Setup.Added.{Added, add-Added}

-- A server that listens on nothing yet, and what the system answers for the port 80.
abbrev no_listeners : Listening
no_listeners = record {
  fds = [];
  fds_cap = 8;
  pathnames = [];
  pathnames_cap = 8;
  opened = [];
  closed = [];
}

abbrev answers : AddCalls
answers = record {
  fds_memory = true;
  copy_memory = true;
  pathnames_memory = true;
  socket = some 3;
  dual_stack = false;
  ipv4_socket = some 4;
  bound = true;
}

add_example : Added (tcp_at 80) no_listeners (add answers (tcp_at 80) no_listeners)
add_example =
    add-Added answers (tcp_at 80) no_listeners
      (record {
        fds_fit = ground arith;
        fds_least = ground arith;
        pathnames_fit = ground arith;
        pathnames_least = ground arith;
        accounted = λ fd. refl;
      })
      (ground arith) (ground arith)
