-- ===== src/Lib.antt =====
-- DiME server: a verification library for the C code under server/, and under client/matlab/.
--
-- The server passes messages between clients that hold numerical data. A client sends requests, each
-- a JSON text with an optional binary part, over a socket. The server pops them from the socket's
-- incoming ring of bytes and calls the handler that the request's "command" names. A handler changes
-- groups, queues and messages, and pushes JSON replies onto the outgoing ring. A message that is sent
-- to a group stands once in memory and by reference in the queue of each member, which fetches it by
-- a request of its own.
--
-- Files:
--   Base            numbers, C arrays as lists, `size_t` arithmetic written out, shared lemmas
--   Circle          the window of a circular array, which rings and queues share
--   Ring            server/ringbuffer.c: init, write (reserve and store), peek, discard, read
--   Deque           server/deque.c: init, pushl, pushr, popl, popr, the iterator and apply
--   Table           server/table.c: relocate (with settle, its loop), grow, init, len, iteration
--   Table/Access    server/table.c: search, search_r, remove, insert (in the order of its code)
--   Socket/State    server/socket.c: the state of a socket, init, and the lengths of its rings
--   Socket/Sending  server/socket.c: push_str and push
--   Socket/Unframe  server/socket.c: the loop of pop over WebSocket frames
--   Socket/Receiving server/socket.c: pop
--   Socket/Partial  server/socket.c: sendpartial and recvpartial
--   Socket/Stream   the loop of server/server.c that pops the messages of one socket (`drain`)
--   Socket/Stuck    the same loop in the server that is built with libev
--   Socket/Upgrade  server/socket.c: `dime_socket_init_ws`; Socket/Upgrade/Http has the functions of
--                   the C library on texts that it calls
--   Socket/Setup    server/socket.c: the setup of TLS, non-blocking sockets and the release
--   World           the state behind `dime_server_t`, and the steps that handlers are made of
--   World/Yields    what a chain of steps ends with, where it may also meet a fault
--   Client/Groups   server/client.c: join and leave
--   Client/Messages server/client.c: send, broadcast, sync and wait
--   Client/Session  server/client.c: init, destroy, handshake and devices
--   Request         the part of server/server.c that calls the handler of each request that was popped
--   Server          server/server.c: the body of the loop over descriptors, for one descriptor
--   Server/Setup    server/server.c: `dime_server_init` and `dime_server_add`
--   Server/Keys     server/server.c: the comparison and the hashes of the keys of its two tables
--   Server/Loop     server/server.c: the loop over `select` around it, and its sets of descriptors
--   Server/Events   server/server.c: the callbacks of libev and the loop that takes the place of
--                   the one over `select` where libev is there
--   Server/Teardown server/server.c: `dime_server_destroy`
--   Main/Options    server/main.c: the loop over the arguments
--   Main/Start      server/main.c: the places to listen at, and `main`; Main/Text has `strtok` and
--                   `strtoul`
--   Matlab          client/matlab/sunconnect.c, sunsend.c, sunrecv.c and sunclose.c
-- The files below each of these hold its theorems, named for what they prove, and an Examples file.
--
-- How code and model correspond. A struct is a record and a call returns the new record beside its
-- result; `none` or `failed` is a -1, `aborted` a failed assertion or an access to freed memory.
-- Whether `malloc` and `realloc` succeed is an argument (`grants`), so both outcomes are covered;
-- new memory holds any value (`junk`). `send`, `recv`, OpenSSL and `json_loadb` are parameters;
-- `json_loadb` is given the bytes that are there and the length it is told, which may be more.
-- How `dime_socket_init_tls` ends within a handshake request is an argument of that request.
-- `size_t` sums and products wrap at 2 ^ 64, the message size at 2 ^ 32 as in the code. In World a
-- socket is the list of its replies (the bytes are the business of Socket), a pointer to a client is
-- its descriptor, a group is its name, a name is a number since names are only compared, and the two
-- tables of the server are functions with the lists of their keys in the order of iteration.
--
-- Fuel. Loops over arrays and lists are structural. A walk over a queue takes at most one step more
-- than the array has cells, which suffices (Deque/Iterate). A probe of the table takes at most as
-- many steps as there are cells while one is free (Table/Total, by Table/Coverage: the triangular
-- numbers meet every residue of a power of two). `unframe` takes one step for each frame. `relocate`
-- runs on fuel that no theorem bounds yet. A pass over the descriptors has fuel for `FD_SETSIZE` of
-- them; a descriptor that has no place in an `fd_set`, and a pass that is longer, are a fault
-- (`aborted`). Loops that wait for the system (the two loops of the
-- server, the reading of an HTTP request, the flush before TLS, the loop of `sunsend`) run over the
-- list of what the system returns, call by call, and say so where the list ends before they do.
--
-- Not modelled: log.c, which prints; of main.c the signal handlers and the texts it prints; of server.c
-- a loop that is disabled, and the TLS context, whose code is a comment; zlib, which nothing enables;
-- texts of error messages and of addresses. SHA-1 with base 64 is a parameter (`encoded_sha1`), as is
-- what the system, libev, OpenSSL and MATLAB return. An HTTP version is read as a number of any size,
-- where the C library's `int` would overflow.
--
-- The load tests of table.c compare doubles; here they compare exact fractions, which agree with them
-- while a table has fewer than about ten million entries.
pub mod Base
pub mod Circle
pub mod Ring
pub mod Deque
pub mod Socket
pub mod World
pub mod Client
pub mod Table
pub mod Request
pub mod Server
pub mod Main
pub mod Matlab
