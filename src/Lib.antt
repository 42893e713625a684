-- ===== src/Lib.antt =====
-- fdbus: a message bus of clients and servers on one host or several, with a name server that knows the
-- services and a host server that knows the hosts.
--
-- What the development models of it:
--
-- Serializer (fdbus/CFdbSimpleSerializer.cpp, public/fdbus/CFdbSimpleSerializer.h): CFdbSimpleSerializer as
-- the bytes stored so far with the position, the size of its buffer and whether that has left the scratch
-- cache. A writer is a function from a serializer to a serializer or `none`, which is a write outside the
-- buffer; writers run one after the other by `>>`, as the stream operators do.
--
-- Deserializer (the same files): CFdbSimpleDeserializer as its bytes, its told size, its position and its
-- error flag. A reader is a function to a value and a deserializer or `none`, which is an access outside
-- the buffer. A set error flag is not `none`: later reads leave their objects alone, as in the code.
--
-- Bytes is the memory of an integer on a host of either byte order, which is a Boolean parameter everywhere.
-- Signed integers stand for their two's complement bits.
--
-- Parcelable (public/fdbus/CFdbSimpleSerializer.h): IFdbParcelable as a record of a fresh object, a writer
-- and a reader, and the arrays and byte arrays made with it. Parcelable/Codec has the abstract side: a
-- `Format` says what can be sent, its bytes and what a reader makes of them, and `Implements` says that a
-- parcelable writes and reads it and that reading any bytes stays in the buffer. Every message implements
-- a format, and Parcelable/Exchange and Exchange draw the consequences for two hosts.
--
-- MessageHeader (utils/CFdbIfMessageHeader.h): CFdbMessageHeader, its optional members and their bits.
--
-- Messages (utils/CFdbIfMessageHeader.h, public/fdbus/CFdbIfNameServer.h, public/fdbus/CFdbIfMsgTokens.h): one
-- module for each message of the name server, the host server and the session set-up.
--
-- Subscription (fdbus/CEventSubscribeHandle.cpp, public/fdbus/CEventSubscribeHandle.h): the nested std::maps of
-- CEventSubscribeHandle as association lists (Prelude/Map), and its operations, a message that is sent
-- being a `Delivery`. `item_of` is the abstract view of the table, a function of event, session, object
-- and topic; `IsTidy` is the invariant that the std::maps and the code's erasing of empty tables give.
--
-- LogCache (log/CFdbLogCache.cpp, log/CFdbLogCache.h): CFdbLogCache, the bounded queue of log records.
--
-- AddressAllocator (server/CAddressAllocator.cpp, server/CAddressAllocator.h, utils/CNsConfig.h): the socket
-- addresses that the name server gives to services.
--
-- ServiceAddresses (server/CSvcAddrUtils.cpp, server/CSvcAddrUtils.h): CSvcAddrUtils, which addresses a
-- peer is told, and what changes between two lists of exported services. It works on the address lists of
-- the messages.
--
-- EventLoop (worker/CBaseEventLoop.cpp, public/fdbus/CSysLoopTimer.h, public/fdbus/CBaseEventLoop.h): the timers
-- of an event loop. The timers themselves are a function from ids, which stand for addresses, and the loop
-- has its lists of ids. What a timer does when it runs is a parameter; EventLoop/Steps has the calls that a
-- timer or the owner of the loop may make, as a step relation.
--
-- Watchdog (fdbus/CFdbWatchdog.cpp, fdbus/CFdbWatchdog.h): CFdbWatchdog, its dogs as a map by session, and the
-- barks and kicks of a run as a list of events.
--
-- Worker (worker/CBaseWorker.cpp, public/fdbus/CBaseWorker.h, public/fdbus/CBaseJob.h): the two job queues of
-- CBaseWorker. Every operation gives the list of what became of which job; the calls that a job makes while it
-- runs, or other threads meanwhile, are a parameter. Worker/Order has the step relation. A job may flush the
-- queues, which handles them within the run: flushes nest, and the depth of a run is a bound on that.
--
-- NameServer (server/CNameServer.cpp, server/CNameServer.h, public/fdbus/common_defs.h): the registry as a map of
-- maps, with findService and eraseService; NameServer/Instances has the loop that chooses an instance,
-- NameServer/Requests the allocation of addresses, NameServer/Addresses the search for free ones,
-- NameServer/Binding the registration of what a server has bound, NameServer/Announcing what is told to whom,
-- and NameServer/Removal how services leave and what is sent then; NameServer/Steps is the step relation. Its lists of addresses are the messages of Messages, its addresses those of AddressAllocator.
-- `entry_at` is the abstract view of the registry.
--
-- Security (security/CFdbToken.cpp, security/CServerSecurityConfig.cpp): how tokens are drawn and looked up, and
-- the level of a user by the groups and the user id.
--
-- Prelude has the shared names, Boolean tests, lists over the native numbers, bits and maps. Tests has runs on
-- concrete inputs.
--
-- Bounds and fuel. Messages are at most 2 ^ 30 bytes where a theorem speaks of writing them, which keeps the
-- uint32_t arithmetic of the growing buffer from wrapping; a header never comes near that. The int32_t sums of the
-- reader and of the log cache wrap around as in the code; theorems keep messages below 2 ^ 31 - 2 ^ 16 bytes and
-- the sizes of the log cache below 2 ^ 30 where they need sums that do not. The loop of the log
-- cache has one round of fuel more than the cache has records, and a round takes a record away or ends it, so
-- it stops before the fuel does. The loop that chooses an instance tries each of the 65535 automatic ones at most
-- twice, so 131072 rounds are enough; the loop over the services of a session that ends takes one away in each
-- round but the last. A token is drawn again while it is one of those drawn before, which ends when the strings
-- drawn change: the fuel is a bound on the rounds for one token. Everything else is structural recursion.
--
-- Parameters: sizeof(CDataItem), sprintf, CBaseSocketFactory::buildUrl, the session identifiers of sessions,
-- the constants of the network and of the configured paths and ports, whether a message for a log record can be
-- made, what timers and jobs do when they run, which sessions of a watchdog are alive, and the addresses, ports
-- and tokens that are allocated to a service, the clock, srand and rand, and the groups of a user.
--
-- Not modelled: sockets, threads, file descriptors, TLS and files, which are the system's; the other requests to the
-- name server and the registry of the host server, sessions, requests and replies, the files of the security configuration, the
-- data pool and logging beyond its cache; the JSON printing; cJSON, the bindings and the examples. Allocation
-- never fails, and what a C++ object holds before it is set is a value like any other.
pub mod Prelude
pub mod Bytes
pub mod Security
pub mod Serializer
pub mod Deserializer
pub mod Parcelable
pub mod MessageHeader
pub mod Messages
pub mod Subscription
pub mod LogCache
pub mod AddressAllocator
pub mod ServiceAddresses
pub mod Exchange
pub mod EventLoop
pub mod Watchdog
pub mod Worker
pub mod NameServer
pub mod Tests
