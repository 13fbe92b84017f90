-- ===== src/Lib.antt =====
-- liboctopipes: message passing between local programs over named pipes.
--
-- The C library has these parts. src/serializer.c turns a message into a frame and back.
-- src/cap.c builds and reads the payloads of the Common Access Pipe (CAP), over which a client
-- subscribes and is assigned its two pipes. src/pipes_unix.c opens, reads and writes the FIFOs.
-- src/client.c is the client: it subscribes, sends, receives in a thread and unsubscribes, by the
-- three parts above. src/server.c answers on the CAP, keeps a worker for each client and hands
-- messages on. include/octopipes/types.h holds the data types of all of them. The C++ classes of
-- liboctopipespp wrap the client, the server and a message, and the two programs in clients send one
-- message and print those that come.
--
-- Which file models which part:
--   Prelude, Prelude/*   shared names, lists over the native numbers, laws of the exclusive or
--   Types                include/octopipes/types.h, and the outcome of a call
--   Memory, Memory/*     how the code reads buffers, C strings and pointers; a cursor on a buffer
--   Serializer           octopipes_decode is `decode`, octopipes_encode `encode`, calculate_checksum
--                        has its name. Serializer/Frame describes the format on its own, as `wire`
--   Cap                  octopipes_cap_prepare_… and octopipes_cap_parse_… without their prefix
--   Pipes                pipe_create, pipe_delete, pipe_receive and pipe_send
--   Client               octopipes_init, octopipes_loop_start and _stop, and the setters;
--                        Client/Subscribe, Client/Unsubscribe (with octopipes_cleanup), Client/Send
--                        (octopipes_send and _send_ex) and Client/Loop (octopipes_loop).
--                        Client/Loop/Batches says what the reads of its rounds find.
--                        Client/Phases is about the states, and Client/Steps makes the calls the
--                        steps of a relation
--   Server               the data of src/server.c, and to_server_error; Server/Inbox (message_inbox_…),
--                        Server/Workers (worker_… and octopipes_server_…_worker), Server/Dispatch
--                        (octopipes_server_dispatch_message and _process_first, _once, _all),
--                        Server/Lifecycle (octopipes_server_init, _cleanup, the start and stop of the
--                        CAP listener), Server/Directory (create_clients_dir), Server/CommonPipe (what
--                        goes over the CAP) and Server/Listen (cap_loop, worker_loop). Server/Sound says
--                        what the calls keep of the workers' names, and Server/Steps makes the calls
--                        and the rounds of the threads the steps of a relation
--   Octopipespp          the enumerations of liboctopipespp and their translations;
--                        Octopipespp/Message, Octopipespp/Client and Octopipespp/Server are
--                        liboctopipespp/src/message.cpp, client.cpp and server.cpp, with snake case for
--                        the names of the methods, and Octopipespp/Descriptions the texts of the errors,
--                        those of the C library included
--   Transport            the client and the server together: messages from one client to another
--   Clients              what clients/octopipes_send.c and clients/octopipes_sub.c share; Clients/Send
--                        and Clients/Sub are their own functions, the two `main` functions as `send_main`
--                        and `sub_main`
-- A module's Tests runs it on small inputs.
--
-- How C is modelled. A call is a function into `Outcome`: it delivers a value, returns an error code,
-- runs into undefined behaviour (`fault`) or is still running (`pending`). A buffer is the list of its
-- bytes, so that its end is known and a read past it is a fault; NULL is `none`. A pointer field that
-- the code frees and sets again is a `Pointer`, which may be dangling. `size_t` and `uint8_t` keep
-- their wrap-around, `u64` and `u8`. Which `malloc` of a call succeeds is told by a `Heap`, a function
-- of the number of the allocation; memory that is freed at the end of a call, and leaks, are left out.
-- The operating system is a script: a list of the answers of `poll`, `read`, `write` and `open`. A
-- loop over such a script recurses on it, and one whose script ends is `pending`: no fuel is used.
-- Such a list also says which frames one read of a FIFO finds, joined as pipe_receive joins them.
-- The loop thread of the client is the list of its rounds, each with the state that another thread
-- sets during it; so are the listening threads of the server, which fill an inbox that the calls of
-- the server's user empty. The mutex of the CAP is a flag, and a call that waits for it is pending.
--
-- Not modelled: src/pipes_windows.c, whose bodies are commented out, and the tests. `getopt`,
-- `atoi` and `rand` belong to the system, so the options of the programs come parsed; what the programs
-- print is not part of a run, save the lines of on_received. The descriptors, `usleep` and the paths of
-- the FIFOs are not part of the model of src/pipes_unix.c, nor is the length of a `time_t`. The user's
-- functions are calls that are noted, and change nothing.
pub mod Prelude
pub mod Types
pub mod Memory
pub mod Serializer
pub mod Cap
pub mod Pipes
pub mod Client
pub mod Server
pub mod Octopipespp
pub mod Transport
pub mod Clients
