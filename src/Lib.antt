-- ===== src/Lib.antt =====
-- PulseNet: a TCP server (src/networking/TCPServer.h) whose clients send HTTP requests, which
-- HttpAssembler (src/networking/http/HttpAssembler.cpp) takes apart byte by byte.
--
-- How the parts interact: the listener thread accepts a connection (`addClient`), gives the client a
-- reference count and a receive buffer, and posts a receive. When bytes arrive it puts the client's
-- id into the queue of a worker. The worker gives the buffer to `feed`, which returns the complete
-- messages and leaves the rest in the buffer; the worker queues the messages as requests and posts the
-- next receive, or answers a malformed request and disconnects. The application takes requests and
-- answers through `send`, which cuts a message into parts no longer than the buffer. Beside the server,
-- the program reads a configuration file, writes logs and runs a console.
--
-- Which file models what:
--   Base: numbers, lists, integers and bytes.
--   Utils: src/networking/Utils.h, with `std::from_chars` and `std::to_string` for `int`. The loop of
--     `containsToken` has one round more than the value has bytes, since each round passes one or more.
--   Http/Types, Http/Message: src/networking/http/HttpHelpers.h, HttpMessage.h and HttpMessage.cpp. A
--     header map is an association list; `serialize` takes the order in which the hash map is visited
--     as the argument `iterate`.
--   Http/Assembler/State: HttpAssembler.h; the setters and `resetState`. A `Machine` is what the loop of
--     `feed` reads and writes: the client's state, the buffer, its length, the messages.
--   Http/Assembler/Lines, HeaderLines, Content: the cases of the `switch`, one function for each. A case
--     that ends by `break` returns `leave`, one that ends by `continue` returns `again`.
--   Http/Assembler/Feed: the loop, what follows it, the result. `run` takes the rounds that are left as
--     fuel; `run_all` gives it as many as there are bytes to read (see Progress), which is
--     enough, as each round leaves fewer.
--   Http/Assembler/Invariant, Outcome, Scan, Requests: proofs about the assembler.
--   Http/Assembler/Pieces: several calls of `feed`, each on what the one before left in the buffer and a
--     piece that was stored behind it, the way WSARecv does; `feed_pieces` stops at the first piece that
--     is refused.
--   Server/Client, Table, Sending: Client.cpp; `addClient`, `getClient`, `terminateClient`; `send` and
--     the posting of receives and sends. The loop of `send` has as many rounds as the message has bytes,
--     enough as each takes one or more.
--   Server/Events: the completions of the listener's loop and a round of `assemblerWorker`, as a step
--     relation; what Windows answers is an argument of a step. In Events/Streaming the bytes of a client
--     arrive in pieces, and each is taken by a worker before the next one arrives.
--   Server/Startup: `start`, `setupSocket`, `postAcceptExEvent` and `closeSocket` of TCPServer.h, on the
--     answers of the system.
--   Pool: src/networking/ThreadPool.cpp as a step relation. A thread may run before its context is there;
--     its write to `m_threads` is left out then. A callback is entered in one step and returns in another.
--     `run` is also a function, for when no worker does anything meanwhile (Pool/Launching).
--   Server/DefaultAssembler: src/networking/DefaultMessageAssembler.h.
--   Server/Showing: `showClients` of TCPServer.h, `showInfo` of Client.cpp, src/Commands.cpp.
--   Logging: src/networking/LoggerInterface.h and LoggerManager.h, and src/utils/Logger.cpp, whose `log`
--     is modelled twice: on three logs, and in Logging/Files on the files that the constructor opened.
--   Utils/Files: the files as an association list of paths and bytes, apart from the three logs; which paths can be read and written,
--     and what the system says of its folders, are arguments.
--   Utils/Config, Utils/Console: src/utils/ConfigParser.cpp; the commands, the loop and the prompt of
--     src/utils/Console.cpp. A `std::map` is the list of its entries in the order of the keys.
--   Program: `main` of src/PulseNet.cpp, the callback of its thread pool, and `next` of TCPServer.h.
--   Tests: concrete runs.
--
-- Three fields stand for what the system keeps and the program cannot see: of a client, how many receives
-- and sends were accepted and are not complete yet (`pending_receives`, `pending_sends`) and the blocks
-- that were given to WSASend (`transmitted`); of the client table, how many such operations there were on
-- clients that were freed (`abandoned_operations`). No operation of the program reads them.
--
-- Bytes are natural numbers. Positions and lengths of the source's `int` are natural numbers, those that
-- can be negative are integers; the buffer lengths and limits that are used stay far below 2^31, so no
-- wrap-around is written out. A read outside the buffer gives 0, and a `memmove` leaves out what it
-- would read outside. `unordered_map::emplace` and `[]` act on the association list. Calls of `feed` and
-- the handlers of the server run one after the other, each to its end; an iterator or a pointer that a
-- handler holds is the entry of the client's id.
--
-- A completion of a receive brings no more bytes than the buffer holds. When two receives are pending, as
-- for a client that took over a waiting id, the bytes can pass the end of the buffer: they lengthen the
-- list then, where the program writes behind its memory.
--
-- Not modelled: where the server writes a log; locks; sockets and completion ports beyond the answers of
-- their calls; the clock; the workers of the pool beside the
-- console in one run of `main`, and the destructors behind its return, which join the threads (see Pool for `stop`).
mod Base
pub mod Utils
pub mod Http
pub mod Server
pub mod Logging
pub mod Pool
pub mod Program
mod Tests
