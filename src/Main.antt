-- ===== src/Main.antt =====
-- server/main.c: the options, the places to listen at, and the calls of server/server.c. Texts are
-- lists of bytes, without the zero behind them. `argc` counts the program's name and the arguments,
-- and a pointer into `argv` is its index: `argv[argc]` is NULL.
pub mod Text
pub mod Options
pub mod Start
pub mod Examples
