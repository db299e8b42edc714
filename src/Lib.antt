-- ===== src/Lib.antt =====
-- The login server of the repository, `src/AuthServer`: a Windows service in C++ that takes clients and
-- game servers over TCP, checks their addresses, and keeps the list of the game servers. A socket
-- cuts its byte stream into packets and posts each to a handler; a handler reads the fields of its
-- packet, and answers with a packet that `Assemble` puts together and the `Send` of the socket frames.
-- The bytes go out through the list of buffers of `CIOSocket`. Packets can be under one of two
-- ciphers. Shared state stands behind locks.
--
-- The parts, each with the file of the model and the code that it is about:
--   * Wire/Assemble: `Assemble` and `LNStrNCpy` of src/AuthServer/util.cpp, and the readers of util.h.
--     The variable arguments are a list of `Arg`, one for each letter of the format.
--   * Wire/Framing: the four `OnRead` methods (CSocketServer.cpp, SocketServerEx.cpp, IPSessionDB.cpp,
--     LogSocket.cpp) are one loop, `loop`, under a `Protocol` of the numbers that differ; `Mode` is
--     `mode` with `packetLen`, and the buffer from `pi` on is a list of bytes. `loop` runs on fuel; the
--     fuel is the number of bytes and one more, enough because each round takes bytes off
--     (`loop_fuel`). Wire/Framing/Sending holds the `Send` methods.
--   * Cipher/Stream, Cipher/Packet and Cipher/Blowfish: `Encrypt`, `Decrypt` and the Blowfish packets of
--     util.cpp, and Blowfish.cpp with its tables. A buffer is a list of bytes, `none` an access past
--     its end, and words are taken lowest byte first, as on the x86 target. The key schedule and the
--     rounds run the fixed number of times of the source.
--   * Ip/Access, Ip/Ranges and Ip/Sessions: `CIPAccessLimit` and `CIPList` of IPList.cpp, `CIPSessionDB` of
--     IPSessionDB.cpp. A `std::map` is a list of pairs in the order of its keys (Base/OrderedMap).
--   * Servers: `CServerList` of ServerList.cpp, one function for each method. Servers/Calls has the same on
--     the entries alone, without the map and its loops.
--   * Sockets/Writes and Sockets/Buffers: `CIOSocket::Write`, `OnWriteCallback` and `Read` of IOSocket.cpp,
--     and the pool of IOBuffer.cpp. A buffer is the number of its `new`. In Sockets/Writes/Flight each call of
--     `WSASend` succeeds or fails, and each send is reported with any count of bytes.
--   * Sockets/Lifetime: the references to a client's socket, in IOObject.cpp, IOSocket.cpp,
--     SocketServerEx.cpp and PacketServerEx.cpp. Each method is the list of its calls that touch the
--     object, and threads make them in any order.
--   * Accepts: `CreateSocket` and the table of IOServer.cpp with `OnClose` of SocketServerEx.cpp, on top of
--     Ip/Access; each call is one step there. Accepts/Threads has their single steps, by threads that
--     interleave in any order.
--   * Timers: the timer queue of Job.cpp and `RegisterTimer` of IOObject.cpp. The priority queue is a list,
--     first the timer that is due first; the loop of `RunTimer` has the number of timers as fuel, enough
--     where the callbacks register for later times.
--   * Reconnects: the connections to the log, IP and wanted servers (LogSocket.cpp, IPSessionDB.cpp,
--     WantedSocket.cpp), with their start in GlobalAuth.cpp: one model for the three.
--   * Admin: `CSocketInt` of CSocketInt.cpp, the port for administration.
--   * Clients: the handlers of SocketServerEx.cpp and the client resources of Config.cpp; a null pointer
--     that is read through, and a copy past the end of a buffer, are `none`.
--   * Locks/ReadWrite and Locks/Spin: `CRWLock` and `CLock` of Lock.cpp, as steps of threads that interleave
--     in any order.
--   * Settings: the dates of Config.cpp and the log level command of GlobalAuth.cpp.
--   * Settings/Tokens and Settings/File: `GetToken` of Parser.cpp, a scanner over the bytes of the file,
--     and `Load`, `Get`, `GetBool` and `GetInt` of Config.cpp. The fuel of the loop of `Load` is the number
--     of bytes and one more, and what the stack holds in `key` before, and the map before, are
--     arguments of `load_map`. A stream that has failed without its end flag, on which the loop goes on for
--     ever, and an empty file, behind which it reads, have results of their own.
--     Settings/Load is `Load` as a whole, with the members of `Config`; Settings/Names has its keys.
--   * Base: shared names, lists and tests on the native numbers, and the laws of exclusive or.
--   * Examples: the components at concrete inputs.
--
-- Integers are native numbers, bit patterns where the source has signed ones; sums and differences
-- that can wrap have the wrap written out. Calls of the system (`WSASend`, semaphores, `strtol` and
-- the like) follow their documentation: a send is started and completes later, a semaphore counts to
-- its limit, a `long` has 32 bits. `PacketSizeType`, which the program sets to 3, is an argument.
--
-- Not modelled: the events of `CJob` and its end; the pools of packets and of accepts, which are
-- free lists like those of the buffers; the accept calls and the tables of the other two ports;
-- password digests, whose hashes are vendored code; the database, logs and windows, which are calls of
-- the system; and the vendored libraries. The log lines of the modelled functions are left out.
pub mod Base
pub mod Cipher
pub mod Ip
pub mod Wire
pub mod Servers
pub mod Sockets
pub mod Locks
pub mod Settings
pub mod Clients
pub mod Timers
pub mod Admin
pub mod Accepts
pub mod Examples
pub mod Reconnects
