-- ===== src/Lib.antt =====
-- Barren Engine, a networking library in C++: a model of its core, and what it guarantees.
--
-- The parts of the program, and the files that model them:
--   Crypto/         The class `Crypto` (Crypto.hpp, src/Crypto.cpp): `Tables` holds the substitution
--                   tables, `Block` the block cipher (`encryptBlock`, `decryptBlock`, their steps and
--                   `generateRoundKey`), `Padding` `padBlock` and `unpadBlock`, `Modes` the keys, the
--                   IVs and ECB, CBC and GCM, `Hash` `hash`, `sign` and `verify`.
--   Compression     The class `Compression` (Compression.hpp, src/Compression.cpp).
--   Connection      The class `Connection` (Connection.hpp, src/Connection.cpp): queues, sequence
--                   numbers and acknowledgements of one peer.
--   Scheduler       `PrioritizedPacket` and `PacketScheduler` (PacketPriority.hpp,
--                   src/PacketPriority.cpp).
--   Network/        The class `NetworkManager` (NetworkManager.hpp, src/NetworkManager.cpp):
--                   `Manager` its state, `Fragments` the cutting of messages, `Sending` `send`,
--                   `Receiving` `processIncomingData`, `receive` and the cleanup of fragments,
--                   `Clients` the connections and a turn of `networkLoop`.
--   MessageHandler/ The class `MessageHandler` (message/MessageHandler.hpp, src/MessageHandler.cpp).
--   VirtualSocket/  The class `VirtualSocket` (virtual/VirtualSocket.hpp,
--                   src/virtual/VirtualSocket.cpp).
--   Address         `validateAddress`, which src/connection/ConnectionManager.cpp and
--                   src/ProtocolManager.cpp both have.
--   ConnectionManager/  The class `ConnectionManager` (connection/ConnectionManager.hpp,
--                   src/connection/ConnectionManager.cpp): `Operations`, `Settings`, and in
--                   `Maintenance` what nothing calls; `Calls` histories of calls, `Views` and
--                   `Replay` what clients see of them.
--   ProtocolManager/  The class `ProtocolManager` (protocol/ProtocolManager.hpp,
--                   src/ProtocolManager.cpp): `Protocols` its five classes of protocols, `Sessions`
--                   histories of calls and the session that they stand for.
--   Diagnostics/    The class `NetworkDiagnostics` (NetworkDiagnostics.hpp,
--                   src/NetworkDiagnostics.cpp).
--   Encryption/     The class `Encryption` (Encryption.hpp, src/Encryption.cpp).
--   Performance/    The class `PerformanceMonitor` (performance/PerformanceMonitor.hpp,
--                   src/PerformanceMonitor.cpp).
--   Security/       The class `SecurityManager` (Security.hpp, src/Security.cpp).
--   Common/         Shared notation, lists, bytes, words, maps, exceptions and the mutex.
--   Tests/          Runs, and theorems applied to concrete values.
--
-- How they interact: `NetworkManager::send` cuts a message into fragments and passes their bytes
-- through `Compression::compress` and `Crypto::encrypt`; `processIncomingData` goes the other way. A
-- turn of the network loop calls `Connection::update` and `getPacketsToSend` for each client.
-- `Encryption` and `SecurityManager` call `Crypto`; the other classes call nobody.
--
-- How code corresponds to definitions: a definition has the name of its function in lower case with
-- underscores, a field that of its member without the last underscore. Objects are records, and
-- an operation returns the new one. A byte is a number below 256; arithmetic on `uint32_t` and on
-- `size_t` counters wraps and is written out. Exceptions are values of `Result`. A
-- `std::map` is a list of entries. Readings of the clocks, random bytes and the
-- contents of memory that the code reads without having written it are arguments, so that a theorem
-- holds for all of them. A `std::mutex` is seen by one thread: to lock it twice is the outcome
-- `deadlock`; an access through a null pointer and a read past the end are outcomes too. The
-- operations of `double` are the interface `Doubles`, with the order that a theorem needs as a
-- hypothesis on it. A callback is a flag, whether it is set, and the list of its calls. The libraries LZ4, Zstandard and
-- JsonCpp are records of functions.
--
-- Fuel: `compress` and `shouldCompress` call one another, and take a unit for each call; two are
-- enough below 64 bytes, and none are from there on. `send` takes a depth, for its calls by itself;
-- two are enough because a fragment is not cut again. `dequeuePacket` takes one, for its call by
-- itself, which waits for the mutex whatever the depth is.
--
-- Not modelled: threads and their interleavings, sockets (stubs in the code), log files, the text of
-- the capture file and the delay of the jitter in `NetworkDiagnostics`, the statistics callback of
-- `MessageHandler`, the callbacks and the average latency of `VirtualSocket`, the rounding of `float`s
-- in `Connection`, the exceptions of the conversions of the JSON library in `PerformanceMonitor`, and
-- the `int` that `NetworkManager::send` adds the sizes of fragments in, which is a natural number here.
pub mod Common
pub mod ConnectionManager
pub mod Crypto
pub mod Address
pub mod Compression
pub mod Connection
pub mod Scheduler
pub mod Network
pub mod MessageHandler
pub mod VirtualSocket
pub mod Tests
pub mod ProtocolManager
pub mod Diagnostics
pub mod Encryption
pub mod Performance
pub mod Security
